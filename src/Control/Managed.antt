-- ===== src/Control/Managed.antt =====
-- src/threads/control.cpp: what holds of all brokers of the pool when the main thread's loop ends.
use octopusmq_cpp.Base.{
  ℕ, ◌≡◌, refl, subst, ◌⊎◌, inl, inr, Bool, true, false, Bool-cases, Option, none, some, List, [],
  ◌∷◌, ◌==◌, All,
}
use octopusmq_cpp.Network.{Address}
use octopusmq_cpp.Scope.{includes}
use octopusmq_cpp.Platform.{Platform, Connection}
use octopusmq_cpp.Message.{Message}
use octopusmq_cpp.Broker.{Outcome, done, threw, fault, Broker}
use octopusmq_cpp.Broker.Delivery.{inject_publish}
use octopusmq_cpp.Broker.Events.{Event, handle}
use octopusmq_cpp.Broker.Invariant.{After, Inv, same-Inv}
use octopusmq_cpp.Broker.Invariant.Sessions.{handle-Inv}
use octopusmq_cpp.Broker.Thread.{IsRunning}
use octopusmq_cpp.Broker.Thread.Serving.{again, handle-IsRunning}
use octopusmq_cpp.Adapter.{Adapter, broker, peer, null, Slot}
use octopusmq_cpp.Queue.{
  Queue, with_adapter, inject, if_included, chain, resume, offer, offer_all, drain,
  wait_and_pop_all,
}
use octopusmq_cpp.Control.{fault}
use octopusmq_cpp.Control.Managing.{Controlled, Handles, Proceeds, Manages}

module _ (p : Platform) where
  -- A broker with its invariant whose thread runs.
  pub record IsServing (b : Broker p) : Type 0 where
    pub inv : Inv p b
    pub is_running : IsRunning p b

  -- A broker that serves, or a peer; no null pointer.
  abbrev pub Sound : Adapter p → Type 0
  Sound (broker b) = IsServing b
  Sound peer = Unit
  Sound null = ⊥

  abbrev pub IsSound : List (Slot p) → Type 0
  IsSound pool = All (λ s. Sound s.adapter) pool

  both : (o : Outcome (Broker p)) → After (Inv p) o → After (IsRunning p) o → After IsServing o
  both (done b) h k = record { inv = h; is_running = k }
  both (threw b) h k = record { inv = h; is_running = k }
  both fault h k = tt

  handle-IsServing :
      (peers : Connection → Option Address) (e : Event p) (b : Broker p)
      → IsServing b
      → After IsServing (handle p peers e b)
  handle-IsServing peers e b h =
      both (handle p peers e b) (handle-Inv p peers e b h.inv)
        (handle-IsRunning p peers e b h.is_running)

  module _ (peers : Connection → Option Address) where
    inject-Sound :
        (m : Message p) (a : Adapter p) (s : Slot p)
        → Sound a
        → Sound s.adapter
        → After (λ t. Sound t.adapter) (inject p peers m a s)
    unfolding handle
    inject-Sound m (broker b) s h k =
        go (inject_publish p peers m b) (handle-IsServing peers (Event.injects m) b h)
      where
        go :
            (o : Outcome (Broker p))
            → After IsServing o
            → After (λ t. Sound t.adapter) (with_adapter p peers s o)
        go (done b) h = h
        go (threw b) h = h
        go fault h = tt
    inject-Sound m peer s h k = k
    inject-Sound m null s h k = tt

    if_included-Sound :
        (m : Message p) (a : Adapter p) (s : Slot p) (body : Outcome (Slot p))
        → Sound s.adapter
        → After (λ t. Sound t.adapter) body
        → After (λ t. Sound t.adapter) (if_included p peers m a s body)
    if_included-Sound m null s body h k = tt
    if_included-Sound m (broker b) s body h k = included (includes s.settings.scope m.topic)
      where
        included :
            (o : Option Bool)
            → After
                (λ t. Sound t.adapter)
                (elim o [ none ↦ fault | some true ↦ body | some false ↦ done s ])
        included none = tt
        included (some true) = k
        included (some false) = h
    if_included-Sound m peer s body h k = included (includes s.settings.scope m.topic)
      where
        included :
            (o : Option Bool)
            → After
                (λ t. Sound t.adapter)
                (elim o [ none ↦ fault | some true ↦ body | some false ↦ done s ])
        included none = tt
        included (some true) = k
        included (some false) = h

    offer-Sound :
        (item : ℕ × Message p) (s : Slot p)
        → Sound s.adapter
        → After (λ t. Sound t.adapter) (offer p peers item s)
    unfolding offer
    offer-Sound (id, m) s h = elim (Bool-cases (s.id == id)) [
      | inl own ↦ rw (offer, own) h
      | inr other ↦
          rw (offer, other) (if_included-Sound m s.adapter s _ h (inject-Sound m s.adapter s h h))
    ]

    chain-Sound :
        (o : Outcome (Slot p)) (ss : List (Slot p)) (rest : Outcome (List (Slot p)))
        → After (λ t. Sound t.adapter) o
        → IsSound ss
        → After IsSound rest
        → After IsSound (chain p peers o ss rest)
    chain-Sound (done s) ss (done ts) h i k = (h, k)
    chain-Sound (done s) ss (threw ts) h i k = (h, k)
    chain-Sound (done s) ss fault h i k = tt
    chain-Sound (threw s) ss rest h i k = (h, i)
    chain-Sound fault ss rest h i k = tt

    offer_all-Sound :
        (item : ℕ × Message p) (pool : List (Slot p))
        → IsSound pool
        → After IsSound (offer_all p peers item pool)
    unfolding offer_all
    offer_all-Sound item [] h = tt
    offer_all-Sound item (s ∷ ss) h =
        chain-Sound _ ss _ (offer-Sound item s h.0) h.1 (offer_all-Sound item ss h.1)

    abbrev Leaves : Outcome (Queue p × List (Slot p)) → Type 0
    Leaves o = After (λ r. IsSound r.1) o

    resume-Leaves :
        (o : Outcome (List (Slot p))) (q : Queue p)
        (rest : List (Slot p) → Outcome (Queue p × List (Slot p)))
        → After IsSound o
        → ((pool : List (Slot p)) → IsSound pool → Leaves (rest pool))
        → Leaves (resume p peers o q rest)
    resume-Leaves (done pool) q rest h k = k pool h
    resume-Leaves (threw pool) q rest h k = h
    resume-Leaves fault q rest h k = tt

    drain-Leaves :
        (q : Queue p) (pool : List (Slot p)) → IsSound pool → Leaves (drain p peers q pool)
    unfolding drain
    drain-Leaves [] pool h = h
    drain-Leaves (item ∷ q) pool h =
        resume-Leaves _ _ _ (offer_all-Sound item pool h) (drain-Leaves q)

    turn-Leaves :
        (q : Queue p) (pool : List (Slot p))
        → IsSound pool
        → Leaves (wait_and_pop_all p peers q pool).0
    unfolding wait_and_pop_all
    turn-Leaves [] pool h = h
    turn-Leaves (item ∷ q) pool h = drain-Leaves (item ∷ q) pool h

    Handles-Sound :
        {q q' : Queue p} {pool pool' : List (Slot p)}
        → Handles p peers q pool q' pool'
        → IsSound pool
        → IsSound pool'
    Handles-Sound {q} (Handles.here {b = b} {s = s} e _ is_broker runs h) v =
        let old = subst Sound is_broker v.0 in
        let queued : Broker p = record b { global_queue = q } in
        (
          subst (After IsServing) h (
              handle-IsServing peers e queued (record {
                inv = same-Inv p b queued refl refl refl old.inv;
                is_running = again p b old.is_running queued refl refl refl;
              })),
          v.1,
        )
    Handles-Sound (Handles.later h) v = (v.0, Handles-Sound h v.1)

  pub Proceeds-Sound :
      {c d : Controlled p} → Proceeds p c d → IsSound c.adapter_pool → IsSound d.adapter_pool
  Proceeds-Sound Proceeds.begins v = v
  Proceeds-Sound (Proceeds.signalled m) v = Proceeds-Sound m v
  Proceeds-Sound (Proceeds.handled peers m h) v = Handles-Sound peers h (Proceeds-Sound m v)
  Proceeds-Sound (Proceeds.entered m _ _) v = Proceeds-Sound m v
  Proceeds-Sound (Proceeds.turned {d = d} peers m _ h) v =
      subst (Leaves peers) h (turn-Leaves peers d.message_queue d.adapter_pool (Proceeds-Sound m v))

  pub Manages-Sound :
      {c d : Controlled p}
      → Manages p c d
      → IsSound c.adapter_pool
      → IsSound d.adapter_pool × ((d.should_stop ≡ true) ⊎ (d.initialized ≡ false))
  Manages-Sound (Manages.stopped m _ h) v = (Proceeds-Sound m v, inl h)
  Manages-Sound (Manages.failed {d = d} peers m _ h) v = (
    subst (Leaves peers) h (turn-Leaves peers d.message_queue d.adapter_pool (Proceeds-Sound m v)),
    inr refl,
  )

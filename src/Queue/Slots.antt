-- ===== src/Queue/Slots.antt =====
-- src/network/adapter.cpp, `message_queue::wait_and_pop_all`: the dispatch seen from each adapter.
use octopusmq_cpp.Base.{ℕ, ◌≡◌, refl, sym, ap, ◌∙◌, subst, ◌↔◌, Option, List, [], ◌∷◌, length}
use octopusmq_cpp.Network.{Address}
use octopusmq_cpp.Platform.{Platform, Connection}
use octopusmq_cpp.Message.{Message}
use octopusmq_cpp.Broker.{Outcome, done, threw, fault, >>=-eq-done, each}
use octopusmq_cpp.Adapter.{Slot}
use octopusmq_cpp.Queue.{Queue, offer, chain, resume, offer_all, drain, wait_and_pop_all}

-- Two lists of one length, related place by place.
abbrev pub Pairs {ℓ} : {A : Type ℓ} → (A → A → Type 0) → List A → List A → Type 0
Pairs R [] [] = Unit
Pairs R (x ∷ xs) (y ∷ ys) = R x y × Pairs R xs ys
Pairs R _ _ = ⊥

module _ {ℓ} {A : Type ℓ} where
  Pairs-refl : (R : A → A → Type 0) (xs : List A) → ((x : A) → R x x) → Pairs R xs xs
  Pairs-refl R [] h = tt
  Pairs-refl R (x ∷ xs) h = (h x, Pairs-refl R xs h)

  Pairs-trans :
      (R S T : A → A → Type 0) (xs ys zs : List A)
      → ((x y z : A) → R x y → S y z → T x z)
      → Pairs R xs ys
      → Pairs S ys zs
      → Pairs T xs zs
  Pairs-trans R S T [] [] [] h p q = tt
  Pairs-trans R S T [] [] (z ∷ zs) h p q = absurd q
  Pairs-trans R S T [] (y ∷ ys) zs h p q = absurd p
  Pairs-trans R S T (x ∷ xs) [] zs h p q = absurd p
  Pairs-trans R S T (x ∷ xs) (y ∷ ys) [] h p q = absurd q
  Pairs-trans R S T (x ∷ xs) (y ∷ ys) (z ∷ zs) h p q =
      (h x y z p.0 q.0, Pairs-trans R S T xs ys zs h p.1 q.1)

  -- What is in between two steps, place by place.
  Pairs-between :
      (R S T : A → A → Type 0) (xs zs : List A)
      → ((x z : A) → T x z → (y : A) × R x y × S y z)
      → Pairs T xs zs
      → (ys : List A) × Pairs R xs ys × Pairs S ys zs
  Pairs-between R S T [] [] h p = ([], tt, tt)
  Pairs-between R S T [] (z ∷ zs) h p = absurd p
  Pairs-between R S T (x ∷ xs) [] h p = absurd p
  Pairs-between R S T (x ∷ xs) (z ∷ zs) h p =
      let (y, r, s) = h x z p.0 in
      let (ys, rs, ss) = Pairs-between R S T xs zs h p.1 in (y ∷ ys, (r, rs), (s, ss))

module _ (p : Platform) (peers : Connection → Option Address) where
  chain-eq-done :
      (o : Outcome (Slot p)) (ss : List (Slot p)) (rest : Outcome (List (Slot p)))
      {ts : List (Slot p)}
      → chain p peers o ss rest ≡ done ts
      → (s : Slot p) × (us : List (Slot p)) × (o ≡ done s) × (rest ≡ done us) × (ts ≡ s ∷ us)
  chain-eq-done (done s) ss (done us) h = (s, us, refl, refl, cc)
  chain-eq-done (done s) ss (threw us) h = absurd (cc)
  chain-eq-done (done s) ss fault h = absurd (cc)
  chain-eq-done (threw s) ss rest h = absurd (cc)
  chain-eq-done fault ss rest h = absurd (cc)

  resume-eq-done :
      (o : Outcome (List (Slot p))) (q : Queue p)
      (rest : List (Slot p) → Outcome (Queue p × List (Slot p))) {r : Queue p × List (Slot p)}
      → resume p peers o q rest ≡ done r
      → (pool : List (Slot p)) × (o ≡ done pool) × (rest pool ≡ done r)
  resume-eq-done (done pool) q rest h = (pool, refl, h)
  resume-eq-done (threw pool) q rest h = absurd (cc)
  resume-eq-done fault q rest h = absurd (cc)

  abbrev Offered : ℕ × Message p → Slot p → Slot p → Type 0
  Offered item s t = offer p peers item s ≡ done t

  offer_all_sound :
      (item : ℕ × Message p) (pool pool' : List (Slot p))
      → offer_all p peers item pool ≡ done pool'
      → Pairs (Offered item) pool pool'
  unfolding offer_all
  offer_all_sound item [] [] h = tt
  offer_all_sound item [] (t ∷ ts) h = absurd (cc)
  offer_all_sound item (s ∷ ss) [] h = let (t, us, _, _, e) = chain-eq-done _ ss _ h in absurd (cc)
  offer_all_sound item (s ∷ ss) (t ∷ ts) h =
      let (u, us, here, rest, e) = chain-eq-done _ ss _ h in (cc, offer_all_sound item ss ts (cc))

  offer_all_complete :
      (item : ℕ × Message p) (pool pool' : List (Slot p))
      → Pairs (Offered item) pool pool'
      → offer_all p peers item pool ≡ done pool'
  unfolding offer_all
  offer_all_complete item [] [] h = refl
  offer_all_complete item [] (t ∷ ts) h = absurd h
  offer_all_complete item (s ∷ ss) [] h = absurd h
  offer_all_complete item (s ∷ ss) (t ∷ ts) h =
      rw (offer_all, h.0, offer_all_complete item ss ts h.1)

  -- What one adapter gets of the queue: each item is offered to it, the oldest first.
  abbrev pub Served : Queue p → Slot p → Slot p → Type 0
  Served q s t = each (offer p peers) q s ≡ done t

  drain_sound :
      (q q' : Queue p) (pool pool' : List (Slot p))
      → drain p peers q pool ≡ done (q', pool')
      → (q' ≡ []) × Pairs (Served q) pool pool'
  unfolding drain each
  drain_sound [] q' pool pool' h =
      (cc, subst (Pairs (Served []) pool) (cc) (Pairs-refl (Served []) pool (λ s. refl)))
  drain_sound (item ∷ q) q' pool pool' h =
      let (mid, offered, rest) =
        resume-eq-done (offer_all p peers item pool) _ (drain p peers q) h in
      let (none_left, served) = drain_sound q q' mid pool' rest in
      (
        none_left,
        Pairs-trans (Offered item) (Served q) (Served (item ∷ q)) pool mid pool'
            (λ x y z o t. rw (each, o) t) (offer_all_sound item pool mid offered) served,
      )

  Served-nothing : (xs ys : List (Slot p)) → Pairs (Served []) xs ys → xs ≡ ys
  unfolding each
  Served-nothing [] [] h = refl
  Served-nothing [] (y ∷ ys) h = absurd h
  Served-nothing (x ∷ xs) [] h = absurd h
  Served-nothing (x ∷ xs) (y ∷ ys) h = let rest = Served-nothing xs ys h.1 in let here = h.0 in cc

  drain_complete :
      (q : Queue p) (pool pool' : List (Slot p))
      → Pairs (Served q) pool pool'
      → drain p peers q pool ≡ done ([], pool')
  unfolding drain each
  drain_complete [] pool pool' h = ap (λ x. done ([], x)) (Served-nothing pool pool' h)
  drain_complete (item ∷ q) pool pool' h =
      let (mid, offered, served) =
        Pairs-between (Offered item) (Served q) (Served (item ∷ q)) pool pool'
          (λ x z t. >>=-eq-done (offer p peers item x) (each (offer p peers) q) t) h in
      rw (drain, offer_all_complete item pool mid offered) (drain_complete q mid pool' served)

  drain-nothing :
      (q' : Queue p) (pool pool' : List (Slot p))
      → (◌≡◌ {A = Outcome (Queue p × List (Slot p))} (done ([], pool)) (done (q', pool')))
        ↔ ((q' ≡ []) × Pairs (Served []) pool pool')
  unfolding drain
  drain-nothing q' pool pool' = (
    drain_sound [] q' pool pool',
    λ h. drain_complete [] pool pool' h.1 ∙ ap (λ r. done (r, pool')) (sym h.0),
  )

  -- `wait_and_pop_all` ends properly with a queue and a pool exactly if the queue is empty then and
  -- each adapter, on its own, has come to its new state by being offered every item of the old
  -- queue, the oldest first. The number that it returns is the length of the old queue.
  pub wait_and_pop_all_lem :
      (q q' : Queue p) (pool pool' : List (Slot p))
      → (((wait_and_pop_all p peers q pool).0 ≡ done (q', pool'))
          ↔ ((q' ≡ []) × Pairs (Served q) pool pool'))
        × ((wait_and_pop_all p peers q pool).1 ≡ length q)
  unfolding wait_and_pop_all
  wait_and_pop_all_lem [] q' pool pool' = ((drain-nothing q' pool pool'), refl)
  wait_and_pop_all_lem (item ∷ q) q' pool pool' = (
    (
      drain_sound (item ∷ q) q' pool pool',
      λ h. drain_complete (item ∷ q) pool pool' h.1 ∙ ap (λ r. done (r, pool')) (sym h.0),
    ),
    refl,
  )

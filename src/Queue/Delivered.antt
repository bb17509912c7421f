-- ===== src/Queue/Delivered.antt =====
-- src/network/adapter.cpp, `message_queue::wait_and_pop_all`: what a running broker sends for the
-- messages of a queue.
use octopusmq_cpp.Base.{
  ℕ, ◌≡◌, refl, sym, ap, ◌∙◌, subst, ◌≢◌, inl, inr, Bool, true, false, not, ◌&&◌, Option, none,
  some, List, [], ◌∷◌, ◌++◌, if◌then◌else◌, ◌==◌, Bool-cases, All,
}
use octopusmq_cpp.Network.{Address}
use octopusmq_cpp.Scope.{includes}
use octopusmq_cpp.Platform.{Platform, Connection, Subscription}
use octopusmq_cpp.Message.{Message}
use octopusmq_cpp.Broker.{Outcome, done, fault, each, Broker, Packet}
use octopusmq_cpp.Broker.Delivery.{injected_packet}
use octopusmq_cpp.Broker.Publishing.{
  hits, is_true, outgoing, Passed, Passed-refl, Passed-trans, IsReachable,
}
use octopusmq_cpp.Broker.Forwarding.{inject_publish-Passed}
use octopusmq_cpp.Adapter.{broker, Slot}
use octopusmq_cpp.Queue.{Queue, inject, offer}

module _ (p : Platform) (peers : Connection → Option Address) where
  -- A slot whose adapter is this broker.
  abbrev pub running : Slot p → Broker p → Slot p
  running s b = record s { adapter = broker b }

  -- Is the item from another adapter, and in the scope of this one?
  abbrev pub concerns : Slot p → ℕ × Message p → Bool
  concerns s (id, m) = not (s.id == id) && is_true (includes s.settings.scope m.topic)

  -- The packets for an item, and for a queue.
  abbrev pub packets_for : Slot p → List Subscription → ℕ × Message p → List (Connection × Packet p)
  packets_for s subs item =
      if concerns s item
      then outgoing p (hits item.1.topic) (injected_packet p peers item.1) subs
      else []

  abbrev pub packets : Slot p → List Subscription → Queue p → List (Connection × Packet p)
  packets s subs [] = []
  packets s subs (item ∷ q) = packets_for s subs item ++ packets s subs q

  -- The scope and every subscription can be compared with the topic, and every subscriber has a
  -- remote end.
  abbrev pub IsServable : Slot p → List Subscription → ℕ × Message p → Type 0
  IsServable s subs item =
      (includes s.settings.scope item.1.topic ≢ none) × All (IsReachable p peers item.1.topic) subs

  -- Serving a broker ends, with these packets sent.
  abbrev pub Serves : Slot p → Broker p → List (Connection × Packet p) → Outcome (Slot p) → Type 0
  Serves s b ks o = (b' : Broker p) × (o ≡ done (running s b')) × Passed p b ks b'

  if_included-Serves :
      (s : Slot p) (b : Broker p) (o : Option Bool) (body : Outcome (Slot p))
      (ks : List (Connection × Packet p))
      → o ≢ none
      → Serves s b ks body
      → Serves s b
          (if is_true o then ks else [])
          (elim o [ none ↦ fault | some true ↦ body | some false ↦ done (running s b) ])
  if_included-Serves s b none body ks h k = absurd (h refl)
  if_included-Serves s b (some true) body ks h k = k
  if_included-Serves s b (some false) body ks h k = (b, refl, Passed-refl p b)

  inject-Serves :
      (s : Slot p) (b : Broker p) (m : Message p)
      → All (IsReachable p peers m.topic) (p.by_topic b.subs)
      → Serves s b
          (outgoing p (hits m.topic) (injected_packet p peers m) (p.by_topic b.subs))
          (inject p peers m (broker b) (running s b))
  inject-Serves s b m h =
      let (b', e, passed) = inject_publish-Passed p peers m b h in (b', rw e refl, passed)

  offer-Serves :
      (s : Slot p) (b : Broker p) (item : ℕ × Message p)
      → IsServable s (p.by_topic b.subs) item
      → Serves s b (packets_for s (p.by_topic b.subs) item) (offer p peers item (running s b))
  unfolding offer
  offer-Serves s b (id, m) h = elim (Bool-cases (s.id == id)) [
    | inl own ↦ rw (offer, own) (b, refl, Passed-refl p b)
    | inr other ↦
        rw (offer, other)
          (if_included-Serves s b (includes s.settings.scope m.topic) _ _ h.0
            (inject-Serves s b m h.1))
  ]

  each-Serves :
      (s : Slot p) (b : Broker p) (subs : List Subscription) (q : Queue p)
      → p.by_topic b.subs ≡ subs
      → All (IsServable s subs) q
      → Serves s b (packets s subs q) (each (offer p peers) q (running s b))
  unfolding each
  each-Serves s b subs [] e h = (b, refl, Passed-refl p b)
  each-Serves s b subs (item ∷ q) e h =
      let (c, here, passed) =
        offer-Serves s b item (subst (λ x. IsServable s x item) (sym e) h.0) in
      let (d, rest, later) = each-Serves s c subs q (ap p.by_topic passed.subs ∙ e) h.1 in
      (
        d,
        rw (each, here) rest,
        subst (λ x. Passed p b (packets_for s x item ++ packets s subs q) d) e
            (Passed-trans p passed later),
      )

  -- A broker that is offered a queue sends, for each message of another adapter that its scope
  -- includes, the oldest first, one packet to each subscription whose filter matches, and nothing
  -- else; if its scope and its filters can be compared with the topics and its subscribers have
  -- remote ends. A message of its own it does not get back.
  pub served-Passed :
      (s : Slot p) (b : Broker p) (q : Queue p)
      → All (IsServable s (p.by_topic b.subs)) q
      → (b' : Broker p) × (each (offer p peers) q (running s b) ≡ done (running s b'))
        × Passed p b (packets s (p.by_topic b.subs) q) b'
  served-Passed s b q h = each-Serves s b (p.by_topic b.subs) q refl h

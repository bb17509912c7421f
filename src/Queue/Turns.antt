-- ===== src/Queue/Turns.antt =====
-- src/network/adapter.cpp, `message_queue::wait_and_pop_all`: a turn in which every message of the
-- queue is delivered.
use octopusmq_cpp.Base.{
  ℕ, ◌≡◌, ◌≢◌, refl, inl, inr, Bool, true, false, Option, none, some, List, [], ◌∷◌, ◌==◌,
  Bool-cases, All, length,
}
use octopusmq_cpp.Network.{Address}
use octopusmq_cpp.Scope.{includes}
use octopusmq_cpp.Platform.{Platform, Connection}
use octopusmq_cpp.Message.{Message}
use octopusmq_cpp.Broker.{Outcome, done, fault, each, Broker}
use octopusmq_cpp.Broker.Publishing.{Passed}
use octopusmq_cpp.Adapter.{Adapter, broker, peer, null, Slot}
use octopusmq_cpp.Queue.{Queue, offer, wait_and_pop_all}
use octopusmq_cpp.Queue.Slots.{Pairs, Served, wait_and_pop_all_lem}
use octopusmq_cpp.Queue.Delivered.{running, packets, IsServable, served-Passed}

module _ (p : Platform) (peers : Connection → Option Address) where
  -- An adapter that can take every message of a queue: a broker that can be served, or a peer whose
  -- scope can be compared with the topics.
  abbrev pub IsReady : Queue p → Slot p → Adapter p → Type 0
  IsReady q s (broker b) = All (IsServable p peers s (p.by_topic b.subs)) q
  IsReady q s peer = All (λ item. includes s.settings.scope item.1.topic ≢ none) q
  IsReady q s null = ⊥

  -- What a turn makes of an adapter: a broker has sent the packets for the queue, and a peer has
  -- done nothing.
  abbrev pub Delivered : Queue p → Slot p → Adapter p → Slot p → Type 0
  Delivered q s (broker b) t =
      (b' : Broker p) × (t ≡ running p peers s b')
      × Passed p b (packets p peers s (p.by_topic b.subs) q) b'
  Delivered q s peer t = t ≡ record s { adapter = peer }
  Delivered q s null t = ⊥

  abbrev pub idle : Slot p → Slot p
  idle s = record s { adapter = peer }

  peer_included :
      (s : Slot p) (o : Option Bool)
      → o ≢ none
      → ◌≡◌ {A = Outcome (Slot p)}
          (elim o [ none ↦ fault | some true ↦ done (idle s) | some false ↦ done (idle s) ])
          (done (idle s))
  peer_included s none h = absurd (h refl)
  peer_included s (some true) h = refl
  peer_included s (some false) h = refl

  offer_peer :
      (s : Slot p) (item : ℕ × Message p)
      → includes s.settings.scope item.1.topic ≢ none
      → offer p peers item (idle s) ≡ done (idle s)
  unfolding offer
  offer_peer s (id, m) h = elim (Bool-cases (s.id == id)) [
    | inl own ↦ rw (offer, own) refl
    | inr other ↦ rw (offer, other) (peer_included s (includes s.settings.scope m.topic) h)
  ]

  each_peer :
      (s : Slot p) (q : Queue p)
      → All (λ item. includes s.settings.scope item.1.topic ≢ none) q
      → each (offer p peers) q (idle s) ≡ done (idle s)
  unfolding each
  each_peer s [] h = refl
  each_peer s (item ∷ q) h = rw (each, offer_peer s item h.0) (each_peer s q h.1)

  serve :
      (a : Adapter p) (s : Slot p) (q : Queue p)
      → IsReady q s a
      → (t : Slot p) × (each (offer p peers) q (record s { adapter = a }) ≡ done t)
        × Delivered q s a t
  serve (broker b) s q h =
      let (b', runs, passed) = served-Passed p peers s b q h in
      (running p peers s b', runs, (b', refl, passed))
  serve peer s q h = (idle s, each_peer s q h, refl)
  serve null s q h = absurd h

  serve-All :
      (q : Queue p) (pool : List (Slot p))
      → All (λ s. IsReady q s s.adapter) pool
      → (pool' : List (Slot p)) × Pairs (Served p peers q) pool pool'
        × Pairs (λ s t. Delivered q s s.adapter t) pool pool'
  serve-All q [] h = ([], tt, tt)
  serve-All q (s ∷ ss) h =
      let (t, runs, sent) = serve s.adapter s q h.0 in
      let (ts, all_run, all_sent) = serve-All q ss h.1 in
      (t ∷ ts, (runs, all_run), (sent, all_sent))

  -- If no adapter of the pool is a null pointer, all scopes, and the filters of all subscriptions,
  -- can be compared with the topic of every message that waits, and all subscribers have remote
  -- ends, then the next turn of the main thread ends and leaves no message in the queue: each
  -- broker has sent, for each message of another adapter in its scope, one packet to each
  -- subscription whose filter matches; a DDS peer has done nothing; and the number of messages is
  -- returned.
  pub turn_delivers :
      (q : Queue p) (pool : List (Slot p))
      → All (λ s. IsReady q s s.adapter) pool
      → (pool' : List (Slot p)) × (wait_and_pop_all p peers q pool ≡ (done ([], pool'), length q))
        × Pairs (λ s t. Delivered q s s.adapter t) pool pool'
  turn_delivers q pool h =
      let (pool', runs, sent) = serve-All q pool h in
      let lem = wait_and_pop_all_lem p peers q [] pool pool' in
      (pool', λ i. (lem.0.1 (refl, runs) i, lem.1 i), sent)

-- ===== src/Broker/Publishing.antt =====
-- src/threads/mqtt/broker.cpp: whom the publish handlers and `inject_publish` reach, and what they
-- share with the other adapters.
use octopusmq_cpp.Base.{
  ◌≡◌, refl, sym, ap, ◌∙◌, subst, ◌≢◌, inl, inr, Bool, true, false, Option, none, some, List, [],
  ◌∷◌, ◌++◌, append_assoc, append-nil, arith, if◌then◌else◌, Option-cases, All, Text,
}
use octopusmq_cpp.Network.{Address}
use octopusmq_cpp.Scope.{matches_filter}
use octopusmq_cpp.Platform.{Platform, Connection, Subscription}
use octopusmq_cpp.Broker.{Outcome, done, fault, each, Packet, Broker, transmit}
use octopusmq_cpp.Broker.Delivery.{logged, log_sent, pass_on, if_matches}

-- Does a subscription's filter match the topic?
abbrev pub is_true : Option Bool → Bool
is_true none = false
is_true (some b) = b

abbrev pub hits : Text → Subscription → Bool
hits topic s = is_true (matches_filter s.topic_filter topic)

module _ (p : Platform) where
  -- A packet to each wanted subscriber, in the order of the subscriptions.
  abbrev pub outgoing :
      (Subscription → Bool)
      → (Subscription → Packet p)
      → List Subscription
      → List (Connection × Packet p)
  outgoing want packet [] = []
  outgoing want packet (s ∷ ss) =
      if want s then (s.con, packet s) ∷ outgoing want packet ss else outgoing want packet ss

  -- From one state to the next only these packets went out; the log and the metadata may differ.
  pub record Passed (b : Broker p) (ks : List (Connection × Packet p)) (b' : Broker p)
      : Type 0 where
    pub out : b'.sent ≡ b.sent ++ ks
    pub subs : b'.subs ≡ b.subs
    pub queue : b'.global_queue ≡ b.global_queue
    pub settings : b'.settings ≡ b.settings
    pub connections : b'.connections ≡ b.connections

  -- A call that ends, with these packets sent.
  abbrev pub Ends : Broker p → List (Connection × Packet p) → Outcome (Broker p) → Type 0
  Ends b ks o = (b' : Broker p) × (o ≡ done b') × Passed b ks b'

  pub Passed-refl : (b : Broker p) → Passed b [] b
  Passed-refl b = record {
    out = sym (append-nil b.sent);
    subs = refl;
    queue = refl;
    settings = refl;
    connections = refl;
  }

  pub Passed-trans :
      {b c d : Broker p} {ks ls : List (Connection × Packet p)}
      → Passed b ks c
      → Passed c ls d
      → Passed b (ks ++ ls) d
  Passed-trans {b} {ks = ks} {ls = ls} h k = record {
    out = k.out ∙ ap (λ x. x ++ ls) h.out ∙ append_assoc b.sent ks ls;
    subs = k.subs ∙ h.subs;
    queue = k.queue ∙ h.queue;
    settings = k.settings ∙ h.settings;
    connections = k.connections ∙ h.connections;
  }

  module _ (f : Subscription → Broker p → Outcome (Broker p)) (want : Subscription → Bool)
      (packet : Subscription → Packet p) where
    abbrev pub one : Subscription → List (Connection × Packet p)
    one s = outgoing want packet (s ∷ [])

    outgoing-cons :
        (s : Subscription) (ss : List Subscription)
        → one s ++ outgoing want packet ss ≡ outgoing want packet (s ∷ ss)
    outgoing-cons s ss = ground arith

    pub each-Ends :
        (ss : List Subscription) (b : Broker p)
        → All (λ s. (c : Broker p) → Ends c (one s) (f s c)) ss
        → Ends b (outgoing want packet ss) (each f ss b)
    unfolding each
    each-Ends [] b h = (b, refl, Passed-refl b)
    each-Ends (s ∷ ss) b h =
        let (c, e, here) = h.0 b in
        let (d, e', later) = each-Ends ss c h.1 in
        (
          d,
          rw (each, e) e',
          subst (λ ks. Passed b ks d) (outgoing-cons s ss) (Passed-trans here later),
        )

  module _ (peers : Connection → Option Address) (topic : Text) where
    -- The filter can be compared with the topic, and the subscriber has a remote end.
    abbrev pub IsReachable : Subscription → Type 0
    IsReachable s = (matches_filter s.topic_filter topic ≢ none) × (peers s.con ≢ none)

    pub pass_on-Ends :
        (s : Subscription) (k : Packet p) (contents : Text) (b : Broker p)
        → peers s.con ≢ none
        → Ends b ((s.con, k) ∷ []) (pass_on p peers s k contents b)
    unfolding log_sent
    pass_on-Ends s k contents b h = elim (Option-cases (peers s.con)) [
      | inl e ↦ absurd (h e)
      | inr (remote, e) ↦ (
        logged p peers remote s.con contents (transmit p s.con k b),
        rw (log_sent, e) refl,
        record { out = refl; subs = refl; queue = refl; settings = refl; connections = refl },
      )
    ]

    pub if_matches-Ends :
        (s : Subscription) (b : Broker p) (body : Outcome (Broker p))
        (ks : List (Connection × Packet p))
        → matches_filter s.topic_filter topic ≢ none
        → Ends b ks body
        → Ends b (if hits topic s then ks else []) (if_matches p peers s topic b body)
    if_matches-Ends s b body ks h k = go (matches_filter s.topic_filter topic) h
      where
        go :
            (o : Option Bool)
            → o ≢ none
            → Ends b
                (if is_true o then ks else [])
                (elim o [ none ↦ fault | some true ↦ body | some false ↦ done b ])
        go none h = absurd (h refl)
        go (some true) h = k
        go (some false) h = (b, refl, Passed-refl b)

    -- The loop of a publish that reaches every subscriber whose filter matches.
    pub loop-Ends :
        (packet : Subscription → Packet p) (contents : Text) (ss : List Subscription) (b : Broker p)
        → All IsReachable ss
        → Ends b (outgoing (hits topic) packet ss) (
            each
              (λ s c. if_matches p peers s topic c (pass_on p peers s (packet s) contents c))
              ss
              b)
    loop-Ends packet contents ss b h = each-Ends _ (hits topic) packet ss b (go ss h)
      where
        go :
            (ss : List Subscription)
            → All IsReachable ss
            → All
                (λ s.
                  (c : Broker p)
                  → Ends c
                      (if hits topic s then (s.con, packet s) ∷ [] else [])
                      (if_matches p peers s topic c (pass_on p peers s (packet s) contents c)))
                ss
        go [] h = tt
        go (s ∷ ss) h = (
          λ c. if_matches-Ends s c _ _ h.0.0 (pass_on-Ends s (packet s) contents c h.0.1),
          go ss h.1,
        )

-- ===== src/Broker/Table/Delivers.antt =====
-- src/threads/mqtt/broker.cpp: whom a publish reaches, by the events that the broker has handled.
use octopusmq_cpp.Base.{
  ℕ, ◌≡◌, refl, sym, ap, subst, ◌≢◌, ◌↔◌, inl, inr, Bool, true, ◌&&◌, Option, none, some, List, [],
  ◌∷◌, ◌==◌, ==_iff, Bool-cases, All, Text, arith,
}
use octopusmq_cpp.Network.{Address, v3, v5}
use octopusmq_cpp.Scope.{matches_filter}
use octopusmq_cpp.Scope.Split.{split}
use octopusmq_cpp.Scope.Filters.{ValidFilter, ValidTopic}
use octopusmq_cpp.Scope.Matching.{Matches, Overruns}
use octopusmq_cpp.Scope.Answers.{matches_filter-true_iff, matches_filter-faults_iff}
use octopusmq_cpp.Platform.{Platform, PublishOptions, Connection, Subscription, min_qos}
use octopusmq_cpp.Message.{Message, published}
use octopusmq_cpp.Broker.{done, Packet, publish_v3, Broker, init}
use octopusmq_cpp.Broker.Delivery.{
  injected_packet, handle_publish_v3, handle_publish_v5, inject_publish,
}
use octopusmq_cpp.Broker.Events.{Reach}
use octopusmq_cpp.Broker.Invariant.{Subscribed}
use octopusmq_cpp.Broker.Invariant.Sessions.{reachable-Inv}
use octopusmq_cpp.Broker.Publishing.{is_true, hits, outgoing, Passed, IsReachable}
use octopusmq_cpp.Broker.Forwarding.{
  Forwarded, wanted_v5, packet_v5, handle_publish_v3-Forwarded, handle_publish_v5-Forwarded,
  inject_publish-Passed,
}
use octopusmq_cpp.Broker.Table.{Options, Table, lookup, nobody, changed_by}
use octopusmq_cpp.Broker.Table.Refines.{events_of, reachable-changed}
use octopusmq_cpp.Broker.Table.Promise.{
  Wants, Decides, Promised, IsUnique-Finds, All-of_table, outgoing-Promised,
}

-- The levels of the filter match those of the topic.
abbrev pub Interested : Text → Wants
Interested topic c f s = Matches (split f) (split topic)

-- The same, but for the publisher's own subscriptions with the option no-local.
abbrev pub Interested_v5 : Connection → Text → Wants
Interested_v5 sp topic c f s = Matches (split f) (split topic) × ¬ ((s.no_local ≡ true) × (c ≡ sp))

-- Every subscription can be compared with the topic, and every subscriber has a remote end.
abbrev pub AllReachable : (Connection → Option Address) → Text → Options → Type 0
AllReachable peers topic t =
    (c : Connection) (f : Text) (s : Subscription)
    → t c f ≡ some s
    → (¬ Overruns (split f) (split topic)) × (peers c ≢ none)

is_true_iff : (o : Option Bool) → (is_true o ≡ true) ↔ (o ≡ some true)
is_true_iff none = (λ h. cc, λ h. cc)
is_true_iff (some b) = (λ h. ap some h, λ h. cc)

hits_iff :
    (topic : Text) (s : Subscription)
    → ValidTopic topic
    → ValidFilter s.topic_filter
    → (hits topic s ≡ true) ↔ Matches (split s.topic_filter) (split topic)
hits_iff topic s w v =
    let answer = is_true_iff (matches_filter s.topic_filter topic) in
    let levels = matches_filter-true_iff s.topic_filter topic v w in
    (λ h. levels.0 (answer.0 h), λ h. answer.1 (levels.1 h))

hits-Decides :
    (topic : Text) (ss : List Subscription)
    → ValidTopic topic
    → All (λ s. ValidFilter s.topic_filter) ss
    → All (Decides (hits topic) (Interested topic)) ss
hits-Decides topic [] w v = tt
hits-Decides topic (s ∷ ss) w v = (hits_iff topic s w v.0, hits-Decides topic ss w v.1)

wanted_v5_iff :
    (p : Platform) (peers : Connection → Option Address) (sp : Connection) (topic : Text)
    (s : Subscription)
    → ValidTopic topic
    → ValidFilter s.topic_filter
    → (wanted_v5 p peers sp topic s ≡ true) ↔ Interested_v5 sp topic s.con s.topic_filter s
wanted_v5_iff p peers sp topic s w v =
    let answer = hits_iff topic s w v in
    (
      λ h. (
        answer.0 (ground (arith, h)),
        λ local. ground (arith, h, local.0, ==_iff s.con sp, local.1),
      ),
      λ h. elim (Bool-cases (s.no_local && s.con == sp)) [
        | inl e ↦ absurd (h.1 (ground (arith, e), (==_iff s.con sp).0 (ground (arith, e))))
        | inr e ↦ rw (e, answer.1 h.0) refl
      ],
    )

module _ (p : Platform) (peers : Connection → Option Address) where
  abbrev pub packet_v3 : Text → Text → PublishOptions → Subscription → Packet p
  packet_v3 topic contents opts s = publish_v3 topic contents (min_qos s.qos_value opts.qos)

  wanted_v5-Decides :
      (sp : Connection) (topic : Text) (ss : List Subscription)
      → ValidTopic topic
      → All (λ s. ValidFilter s.topic_filter) ss
      → All (Decides (wanted_v5 p peers sp topic) (Interested_v5 sp topic)) ss
  wanted_v5-Decides sp topic [] w v = tt
  wanted_v5-Decides sp topic (s ∷ ss) w v =
      (wanted_v5_iff p peers sp topic s w v.0, wanted_v5-Decides sp topic ss w v.1)

  IsReachable-All :
      (topic : Text) (ss : List Subscription)
      → ValidTopic topic
      → Subscribed ss
      → AllReachable peers topic (lookup ss)
      → All (IsReachable p peers topic) ss
  IsReachable-All topic ss w v h = comparable ss v.1 (
      All-of_table (λ s. (¬ Overruns (split s.topic_filter) (split topic)) × (peers s.con ≢ none))
        (lookup ss) ss (λ s found. h s.con s.topic_filter s found) (IsUnique-Finds ss v.0))
    where
      comparable :
          (ss : List Subscription)
          → All (λ s. ValidFilter s.topic_filter) ss
          → All (λ s. (¬ Overruns (split s.topic_filter) (split topic)) × (peers s.con ≢ none)) ss
          → All (IsReachable p peers topic) ss
      comparable [] v h = tt
      comparable (s ∷ ss) v h = (
        (λ e. h.0.0 ((matches_filter-faults_iff s.topic_filter topic v.0 w).0 e), h.0.1),
        comparable ss v.1 h.1,
      )

  -- A state of a broker that some events have led to.
  module _ (settings : ℕ) (queue : List (ℕ × Message p)) (b : Broker p)
      (r : Reach p (init p settings queue) b) where
    abbrev pub subscriptions : Options
    subscriptions = (changed_by p (events_of p r) nobody).options

    is_table : lookup (p.by_topic b.subs) ≡ subscriptions
    is_table = ap (λ (t : Table). t.options) (reachable-changed p settings queue b r)

    stored : Subscribed (p.by_topic b.subs)
    stored = (reachable-Inv p settings queue b r).subscribed

    reached :
        (topic : Text)
        → ValidTopic topic
        → AllReachable peers topic subscriptions
        → All (IsReachable p peers topic) (p.by_topic b.subs)
    reached topic w h =
        IsReachable-All topic (p.by_topic b.subs) w stored
          (subst (AllReachable peers topic) (sym is_table) h)

    -- How a publish, or a message from another adapter, ends, and what is sent.
    abbrev pub DeliversV3 : Text → Connection → PublishOptions → Text → Type 0
    DeliversV3 topic c opts contents =
        (b' : Broker p) × (outs : List (Connection × Packet p)) × (handle_publish_v3 p peers c opts
            topic contents b
          ≡ done b')
        × Forwarded p b outs (published p contents topic (p.encode opts) v3 p.no_props) b'
        × Promised p subscriptions (Interested topic) (packet_v3 topic contents opts) outs

    abbrev pub DeliversV5 : Text → Connection → PublishOptions → Text → p.Props → Type 0
    DeliversV5 topic c opts contents props =
        (b' : Broker p) × (outs : List (Connection × Packet p)) × (handle_publish_v5 p peers c opts
            topic contents props b
          ≡ done b')
        × Forwarded p b outs (published p contents topic (p.encode opts) v5 props) b'
        × Promised p subscriptions (Interested_v5 c topic)
            (packet_v5 p peers topic contents opts props) outs

    abbrev pub DeliversInjected : Message p → Type 0
    DeliversInjected m =
        (b' : Broker p) × (outs : List (Connection × Packet p)) × (inject_publish p peers m b
          ≡ done b')
        × Passed p b outs b'
        × Promised p subscriptions (Interested m.topic) (injected_packet p peers m) outs

    -- What a broker sends follows from the events before: if they have left no subscription whose
    -- filter ends before the topic, and all subscribers have remote ends, then a publish of either
    -- version, and a message from another adapter, on a valid topic name, ends, and sends exactly
    -- one packet for each pair of a connection and a filter that is subscribed by then and whose
    -- levels match those of the topic, with the quality of service and the flags that this
    -- subscription asks for; for an MQTT 5 publish, not to the publisher itself where the
    -- subscription asks for that. A publish is queued for the other adapters once, a message from
    -- another one is not.
    pub publish-Promised :
        (topic : Text)
        → ValidTopic topic
        → AllReachable peers topic subscriptions
        → ((c : Connection) (opts : PublishOptions) (contents : Text)
            → DeliversV3 topic c opts contents)
          × ((c : Connection) (opts : PublishOptions) (contents : Text) (props : p.Props)
              → DeliversV5 topic c opts contents props)
          × ((m : Message p) → m.topic ≡ topic → DeliversInjected m)
    publish-Promised topic w h = (
      λ c opts contents.
          let (b', e, out) =
            handle_publish_v3-Forwarded p peers c opts topic contents b (reached topic w h) in
          (
            b',
            _,
            e,
            out,
            promised _ (hits topic) (Interested topic) (hits-Decides topic _ w stored.1),
          ),
      λ c opts contents props.
          let (b', e, out) =
            handle_publish_v5-Forwarded p peers c opts topic contents props b (reached topic w h) in
          (
            b',
            _,
            e,
            out,
            promised _ (wanted_v5 p peers c topic) (Interested_v5 c topic)
                (wanted_v5-Decides c topic _ w stored.1),
          ),
      λ m same.
          injected m (subst ValidTopic (sym same) w)
            (subst (λ t. AllReachable peers t subscriptions) (sym same) h),
    )
      where
        promised :
            (packet : Subscription → Packet p) (want : Subscription → Bool) (W : Wants)
            → All (Decides want W) (p.by_topic b.subs)
            → Promised p subscriptions W packet (outgoing p want packet (p.by_topic b.subs))
        promised packet want W d =
            subst (λ t. Promised p t W packet (outgoing p want packet (p.by_topic b.subs))) is_table
              (outgoing-Promised p want W packet (p.by_topic b.subs) stored.0 d)

        injected :
            (m : Message p)
            → ValidTopic m.topic
            → AllReachable peers m.topic subscriptions
            → DeliversInjected m
        injected m w h =
            let (b', e, out) = inject_publish-Passed p peers m b (reached m.topic w h) in
            (
              b',
              _,
              e,
              out,
              promised _ (hits m.topic) (Interested m.topic) (hits-Decides m.topic _ w stored.1),
            )

-- ===== src/Broker/Forwarding.antt =====
-- src/threads/mqtt/broker.cpp: the publish handlers and `inject_publish`, when they end and what
-- they have done then.
pub mod Overrun
use octopusmq_cpp.Base.{
  ◌≡◌, refl, sym, ap, ◌∙◌, subst, ◌≢◌, inl, inr, Bool, not, ◌&&◌, Option, none, List, [], ◌∷◌, ◌++◌,
  arith, if◌then◌else◌, ◌==◌, Bool-cases, All, Text, length,
}
use octopusmq_cpp.Network.{Address, receive, Version, v3, v5}
use octopusmq_cpp.Scope.{matches_filter}
use octopusmq_cpp.Scope.Split.{split}
use octopusmq_cpp.Scope.Filters.{ValidFilter, ValidTopic}
use octopusmq_cpp.Scope.Matching.{Overruns}
use octopusmq_cpp.Scope.Answers.{matches_filter-faults_iff}
use octopusmq_cpp.Scope.Includes.{Any}
use octopusmq_cpp.Platform.{Platform, PublishOptions, Connection, Subscription, min_qos}
use octopusmq_cpp.Message.{Message, published}
use octopusmq_cpp.Broker.{
  Outcome, done, fault, >>=-eq-done, each, Packet, publish_v3, publish_v5, publish, Broker, note,
  share,
}
use octopusmq_cpp.Broker.Delivery.{
  retained, if_matches, injected_packet, deliver_v3, deliver_v5, deliver_injected,
  handle_publish_v3, handle_publish_v5, inject_publish,
}
use octopusmq_cpp.Broker.Publishing.{
  hits, outgoing, Passed, Ends, each-Ends, IsReachable, pass_on-Ends, if_matches-Ends, loop-Ends,
  Passed-refl,
}

-- What a publish does to a broker: the packets that go out, and the message for other adapters.
pub record Forwarded (p : Platform) (b : Broker p) (ks : List (Connection × Packet p))
    (m : Message p) (b' : Broker p) : Type 0 where
  pub out : b'.sent ≡ b.sent ++ ks
  pub queue : b'.global_queue ≡ b.global_queue ++ (b.settings, m) ∷ []
  pub subs : b'.subs ≡ b.subs
  pub connections : b'.connections ≡ b.connections

module _ (p : Platform) (peers : Connection → Option Address) where
  shared :
      (b c d : Broker p) (ks : List (Connection × Packet p)) (topic contents : Text)
      (opts : PublishOptions) (n : Version) (props : p.Props)
      → b.sent ≡ c.sent
      → b.subs ≡ c.subs
      → b.global_queue ≡ c.global_queue
      → b.settings ≡ c.settings
      → b.connections ≡ c.connections
      → Passed p c ks d
      → Forwarded p b ks
          (published p contents topic (p.encode opts) n props)
          (share p topic contents opts n props d)
  unfolding share
  shared b c d ks topic contents opts n props e s q t k h =
      let m : Message p = published p contents topic (p.encode opts) n props in
      record {
        out = h.out ∙ ap (λ x. x ++ ks) (sym e);
        queue =
            ap (λ x. x ++ (d.settings, m) ∷ []) (h.queue ∙ sym q)
            ∙ ap (λ i. b.global_queue ++ (i, m) ∷ []) (h.settings ∙ sym t);
        subs = h.subs ∙ sym s;
        connections = h.connections ∙ sym k;
      }

  -- If the filter of every subscription can be compared with the topic, and every subscriber has a
  -- remote end, then an MQTT 3 publish ends: one packet goes to each subscription whose filter
  -- matches, with the lower of both qualities of service, and the message is queued for the other
  -- adapters once.
  pub handle_publish_v3-Forwarded :
      (c : Connection) (opts : PublishOptions) (topic contents : Text) (b : Broker p)
      → All (IsReachable p peers topic) (p.by_topic b.subs)
      → (b' : Broker p) × (handle_publish_v3 p peers c opts topic contents b ≡ done b')
        × Forwarded p b
            (outgoing p
              (hits topic)
              (λ s. publish_v3 topic contents (min_qos s.qos_value opts.qos))
              (p.by_topic b.subs))
            (published p contents topic (p.encode opts) v3 p.no_props)
            b'
  unfolding handle_publish_v3 deliver_v3 note
  handle_publish_v3-Forwarded c opts topic contents b h =
      let noted = note p c receive (publish (length contents)) b in
      let (d, e, passed) =
        loop-Ends p peers topic (λ s. publish_v3 topic contents (min_qos s.qos_value opts.qos))
          contents (p.by_topic b.subs) noted h in
      (
        share p topic contents opts v3 p.no_props d,
        rw e refl,
        shared b noted d _ topic contents opts v3 p.no_props refl refl refl refl refl passed,
      )

  abbrev pub wanted_v5 : Connection → Text → Subscription → Bool
  wanted_v5 c topic s = hits topic s && not (s.no_local && s.con == c)

  abbrev pub packet_v5 : Text → Text → PublishOptions → p.Props → Subscription → Packet p
  packet_v5 topic contents opts props s =
      publish_v5 topic contents (min_qos s.qos_value opts.qos) (retained s opts) props

  one_v5 :
      (hit local : Bool) (k : Connection × Packet p)
      → (if hit then (if local then [] else k ∷ []) else [])
        ≡ (if hit && not local then k ∷ [] else [])
  one_v5 hit local k = ground arith

  deliver_v5-Ends :
      (c : Connection) (topic contents : Text) (opts : PublishOptions) (props : p.Props)
      (s : Subscription) (b : Broker p)
      → IsReachable p peers topic s
      → Ends p b
          (outgoing p (wanted_v5 c topic) (packet_v5 topic contents opts props) (s ∷ []))
          (deliver_v5 p peers c topic contents opts props s b)
  unfolding deliver_v5
  deliver_v5-Ends c topic contents opts props s b h =
      let k = packet_v5 topic contents opts props s in
      subst (λ ks. Ends p b ks (deliver_v5 p peers c topic contents opts props s b))
        (one_v5 (hits topic s) (s.no_local && s.con == c) (s.con, k))
        (if_matches-Ends p peers topic s b _ _ h.0 (elim (Bool-cases (s.no_local && s.con == c)) [
          | inl e ↦ rw e (b, refl, Passed-refl p b)
          | inr e ↦ rw e (pass_on-Ends p peers topic s k contents b h.1)
        ]))

  loop_v5-Ends :
      (c : Connection) (topic contents : Text) (opts : PublishOptions) (props : p.Props)
      (ss : List Subscription)
      → All (IsReachable p peers topic) ss
      → All
          (λ s.
            (b : Broker p)
            → Ends p b
                (outgoing p (wanted_v5 c topic) (packet_v5 topic contents opts props) (s ∷ []))
                (deliver_v5 p peers c topic contents opts props s b))
          ss
  loop_v5-Ends c topic contents opts props [] h = tt
  loop_v5-Ends c topic contents opts props (s ∷ ss) h = (
    λ b. deliver_v5-Ends c topic contents opts props s b h.0,
    loop_v5-Ends c topic contents opts props ss h.1,
  )

  -- If the filter of every subscription can be compared with the topic, and every subscriber has a
  -- remote end, then an MQTT 5 publish ends: one packet goes to each subscription whose filter
  -- matches, but for the publisher's own subscriptions with the option no-local, with the lower
  -- of both qualities of service, the retain flag only where the subscription keeps it, and the
  -- publisher's properties; and the message is queued for the other adapters once.
  pub handle_publish_v5-Forwarded :
      (c : Connection) (opts : PublishOptions) (topic contents : Text) (props : p.Props)
      (b : Broker p)
      → All (IsReachable p peers topic) (p.by_topic b.subs)
      → (b' : Broker p) × (handle_publish_v5 p peers c opts topic contents props b ≡ done b')
        × Forwarded p b
            (outgoing p
              (wanted_v5 c topic)
              (packet_v5 topic contents opts props)
              (p.by_topic b.subs))
            (published p contents topic (p.encode opts) v5 props)
            b'
  unfolding handle_publish_v5 note
  handle_publish_v5-Forwarded c opts topic contents props b h =
      let noted = note p c receive (publish (length contents)) b in
      let (d, e, passed) =
        each-Ends p (deliver_v5 p peers c topic contents opts props) (wanted_v5 c topic)
          (packet_v5 topic contents opts props) (p.by_topic b.subs) noted
          (loop_v5-Ends c topic contents opts props (p.by_topic b.subs) h) in
      (
        share p topic contents opts v5 props d,
        rw e refl,
        shared b noted d _ topic contents opts v5 props refl refl refl refl refl passed,
      )

  -- If the filter of every subscription can be compared with the topic, and every subscriber has a
  -- remote end, then a message from another adapter goes to each subscription whose filter
  -- matches, and is not queued again: the queue, the subscriptions and the connections stay.
  pub inject_publish-Passed :
      (m : Message p) (b : Broker p)
      → All (IsReachable p peers m.topic) (p.by_topic b.subs)
      → (b' : Broker p) × (inject_publish p peers m b ≡ done b')
        × Passed p b (outgoing p (hits m.topic) (injected_packet p peers m) (p.by_topic b.subs)) b'
  unfolding inject_publish deliver_injected
  inject_publish-Passed m b h =
      loop-Ends p peers m.topic (injected_packet p peers m) m.payload (p.by_topic b.subs) b h

  -- What one broker queues is what another one sends: for a message that a publish has queued, the
  -- packet to a subscriber is the one that a publish of the same version on the subscriber's own
  -- broker sends.
  pub injected_packet-published :
      (topic contents : Text) (opts : PublishOptions) (props : p.Props) (s : Subscription)
      → (injected_packet p peers (published p contents topic (p.encode opts) v3 p.no_props) s
          ≡ publish_v3 topic contents (min_qos s.qos_value opts.qos))
        × (injected_packet p peers (published p contents topic (p.encode opts) v5 props) s
            ≡ packet_v5 topic contents opts props s)
  unfolding published
  injected_packet-published topic contents opts props s = (
    ap (λ (o : PublishOptions). publish_v3 topic contents (min_qos s.qos_value o.qos))
        (p.decode-encode opts),
    ap (λ (o : PublishOptions). packet_v5 topic contents o props s) (p.decode-encode opts),
  )

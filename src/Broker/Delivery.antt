-- ===== src/Broker/Delivery.antt =====
-- src/threads/mqtt/broker.cpp: the publish handlers and `inject_publish`. The argument `peers`
-- gives the address of a connection's remote end; where it has none, `remote_endpoint()` throws.
use octopusmq_cpp.Base.{
  Bool, true, false, ◌&&◌, Option, none, some, [], ◌∷◌, ◌++◌, ◌==◌, if◌then◌else◌, Text, length,
}
use octopusmq_cpp.Scope.{matches_filter}
use octopusmq_cpp.Network.{Address, send, receive, v3, v5}
use octopusmq_cpp.Platform.{Platform, PublishOptions, Connection, Subscription, min_qos}
use octopusmq_cpp.Message.{Message}
use octopusmq_cpp.Broker.{
  Outcome, done, threw, fault, ◌>>=◌, each, event, publish, Packet, Broker, update, metadata_of,
  note, transmit, share, publish_v3, publish_v5,
}

-- `(rap_value == rap::retain) ? pubopts.get_retain() : retain::no`.
abbrev pub retained : Subscription → PublishOptions → Bool
retained s opts = if s.retain_as_published then opts.retain else false

module _ (p : Platform) (peers : Connection → Option Address) where
  -- The log entry after a publish to a subscriber.
  abbrev pub logged : Address → Connection → Text → Broker p → Broker p
  logged remote c contents b = record b {
    meta = update b.meta c (some (metadata_of p c b));
    log = b.log ++ event remote (metadata_of p c b).client_id send (publish (length contents)) ∷ [];
  }

  unfoldable pub log_sent : Connection → Text → Broker p → Outcome (Broker p)
  log_sent c contents b = elim (peers c) [
    | none ↦ threw b
    | some remote ↦ done (logged remote c contents b)
  ]

  -- `if (matches_filter(sub.topic_filter, topic_name)) …`, one round of a publish loop.
  abbrev pub if_matches : Subscription → Text → Broker p → Outcome (Broker p) → Outcome (Broker p)
  if_matches s topic b body = elim (matches_filter s.topic_filter topic) [
    | none ↦ fault
    | some true ↦ body
    | some false ↦ done b
  ]

  -- A publish to one subscriber, and its log entry.
  abbrev pub pass_on : Subscription → Packet p → Text → Broker p → Outcome (Broker p)
  pass_on s packet contents b = log_sent s.con contents (transmit p s.con packet b)

  unfoldable pub deliver_v3 :
      Text → Text → PublishOptions → Subscription → Broker p → Outcome (Broker p)
  deliver_v3 topic contents opts s b =
      if_matches s topic b
        (pass_on s (publish_v3 topic contents (min_qos s.qos_value opts.qos)) contents b)

  unfoldable pub deliver_v5 :
      Connection
      → Text
      → Text
      → PublishOptions
      → p.Props
      → Subscription
      → Broker p
      → Outcome (Broker p)
  deliver_v5 sp topic contents opts props s b = if_matches s topic b (
      if s.no_local && s.con == sp
      then done b
      else pass_on s
          (publish_v5 topic contents (min_qos s.qos_value opts.qos) (retained s opts) props)
          contents b)

  -- The packet of a message from another adapter, by the message's version.
  abbrev pub injected_packet : Message p → Subscription → Packet p
  injected_packet m s =
      let opts = p.decode m.origin_pubopts in
      elim m.mqtt_version [
        | v3 ↦ publish_v3 m.topic m.payload (min_qos s.qos_value opts.qos)
        | v5 ↦
            publish_v5 m.topic m.payload (min_qos s.qos_value opts.qos) (retained s opts)
              m.origin_props
      ]

  unfoldable pub deliver_injected : Message p → Subscription → Broker p → Outcome (Broker p)
  deliver_injected m s b = if_matches s m.topic b (pass_on s (injected_packet m s) m.payload b)

  unfoldable pub handle_publish_v3 :
      Connection → PublishOptions → Text → Text → Broker p → Outcome (Broker p)
  handle_publish_v3 sp opts topic contents b =
      each (deliver_v3 topic contents opts) (p.by_topic b.subs)
        (note p sp receive (publish (length contents)) b)
      >>= λ b'. done (share p topic contents opts v3 p.no_props b')

  unfoldable pub handle_publish_v5 :
      Connection → PublishOptions → Text → Text → p.Props → Broker p → Outcome (Broker p)
  handle_publish_v5 sp opts topic contents props b =
      each (deliver_v5 sp topic contents opts props) (p.by_topic b.subs)
        (note p sp receive (publish (length contents)) b)
      >>= λ b'. done (share p topic contents opts v5 props b')

  unfoldable pub inject_publish : Message p → Broker p → Outcome (Broker p)
  inject_publish m b = each (deliver_injected m) (p.by_topic b.subs) b

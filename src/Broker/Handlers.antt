-- ===== src/Broker/Handlers.antt =====
-- src/threads/mqtt/broker.cpp: the handlers that the accept handler sets for a connection, but for
-- those of a publish.
use octopusmq_cpp.Base.{
  ℕ, ◌+◌, leb, Bool, true, false, ◌&&◌, Option, none, some, List, [], ◌∷◌, ◌++◌, if◌then◌else◌,
  Text, codes,
}
use octopusmq_cpp.Scope.{valid_topic_filter}
use octopusmq_cpp.Network.{Address, send, receive, Version, v3, v5}
use octopusmq_cpp.Platform.{Platform, Qos, Connection, Subscription}
use octopusmq_cpp.Broker.{
  Outcome, done, threw, Action, connect, connack, subscribe, suback, unsubscribe, unsuback, pingreq,
  pingresp, disconnect, closed, failed, SubackCode, granted, failure, topic_filter_invalid,
  connack_accepted, pong, suback_codes, unsuback_id, Broker, update, metadata_of, set_metadata,
  note, transmit, close_connection,
}

-- `mqtt_cpp::error_code`, by what the source tells apart; the others have a text.
pub data ErrorCode : Type 0 where
  eof connection_aborted connection_refused connection_reset : ErrorCode
  broken_pipe host_unreachable message_size network_down : ErrorCode
  other : Text → ErrorCode

to_lower : Text → Text
to_lower [] = []
to_lower (c ∷ s) = (if leb b'A' c && leb c b'Z' then c + 32 else c) ∷ to_lower s

pub boost_error_to_string : ErrorCode → Text
boost_error_to_string eof = codes "connection lost"
boost_error_to_string connection_aborted = codes "connection aborted"
boost_error_to_string connection_refused = codes "connection refused"
boost_error_to_string connection_reset = codes "connection reset"
boost_error_to_string broken_pipe = codes "broken pipe"
boost_error_to_string host_unreachable = codes "no route to host"
boost_error_to_string message_size = codes "message too long"
boost_error_to_string network_down = codes "network is down"
boost_error_to_string (other message) = to_lower message

-- `mqtt_cpp::subscribe_options`.
pub record SubscribeOptions : Type 0 where
  pub qos : Qos
  pub retain_as_published : Bool
  pub no_local : Bool

module _ (p : Platform) where
  -- The accept handler, up to the handlers that it sets.
  unfoldable pub accept : (Connection → Option Address) → Connection → Broker p → Outcome (Broker p)
  accept peers c b = elim (peers c) [
    | none ↦ threw b
    | some remote ↦ done (set_metadata p c (record (metadata_of p c b) { address = remote }) b)
  ]

  unfoldable pub handle_close : Connection → Broker p → Broker p
  handle_close c b = close_connection p c (record b { log = b.log ++ closed ∷ [] })

  unfoldable pub handle_error : Connection → ErrorCode → Broker p → Broker p
  handle_error c ec b =
      if b.connections c
      then close_connection p c (record b {
        log =
            b.log
            ++ failed (boost_error_to_string ec) (metadata_of p c b).address
                (metadata_of p c b).client_id
              ∷ [];
      })
      else b

  unfoldable pub handle_pingreq : Connection → Broker p → Broker p
  handle_pingreq c b = note p c send pingresp (transmit p c pong (note p c receive pingreq b))

  -- What both connect handlers do, each with its version.
  abbrev pub connected : Version → Connection → Text → Broker p → Broker p
  connected v c client_id b =
      let entered = record b {
        connections = update b.connections c true;
        meta =
            update b.meta c
              (some (record (metadata_of p c b) { client_id = client_id; protocol_version = v }));
      } in
      note p c send connack (transmit p c (connack_accepted v) (note p c receive connect entered))

  unfoldable pub handle_connect_v3 : Connection → Text → Broker p → Broker p
  handle_connect_v3 c client_id b = connected v3 c client_id b

  unfoldable pub handle_connect_v5 : Connection → Text → Broker p → Broker p
  handle_connect_v5 c client_id b = connected v5 c client_id b

  unfoldable pub handle_disconnect : Connection → Broker p → Broker p
  handle_disconnect c b = close_connection p c (note p c receive disconnect b)

  unfoldable pub handle_disconnect_v5 : Connection → Broker p → Broker p
  handle_disconnect_v5 c b = close_connection p c (note p c receive disconnect b)

  -- The handlers of `puback`, `pubrec`, `pubrel` and `pubcomp` only log, in both versions.
  unfoldable pub handle_ack_v5 : Action → Connection → Broker p → Broker p
  handle_ack_v5 a c b = note p c receive a b

  unfoldable pub handle_ack : Action → Connection → Broker p → Broker p
  handle_ack a c b = note p c receive a b

  -- The loop of the subscribe handler, over the answers so far.
  unfoldable pub subscribe_loop :
      Connection
      → List (Text × SubscribeOptions)
      → Broker p
      → List SubackCode
      → Broker p × List SubackCode
  subscribe_loop c [] b res = (b, res)
  subscribe_loop c ((f, o) ∷ es) b res =
      let s : Subscription = record {
        topic_filter = f;
        con = c;
        qos_value = o.qos;
        retain_as_published = false;
        no_local = false;
      } in
      subscribe_loop c es
        (if valid_topic_filter f then record b { subs = p.emplace s b.subs } else b)
        (res ++ (if valid_topic_filter f then granted o.qos else failure) ∷ [])

  unfoldable pub subscribe_loop_v5 :
      Connection
      → List (Text × SubscribeOptions)
      → Broker p
      → List SubackCode
      → Broker p × List SubackCode
  subscribe_loop_v5 c [] b res = (b, res)
  subscribe_loop_v5 c ((f, o) ∷ es) b res =
      let s : Subscription = record {
        topic_filter = f;
        con = c;
        qos_value = o.qos;
        retain_as_published = o.retain_as_published;
        no_local = o.no_local;
      } in
      subscribe_loop_v5 c es
        (if valid_topic_filter f then record b { subs = p.emplace s b.subs } else b)
        (res ++ (if valid_topic_filter f then granted o.qos else topic_filter_invalid) ∷ [])

  abbrev pub answer : Connection → ℕ → Broker p × List SubackCode → Broker p
  answer c packet_id (b, res) = note p c send suback (transmit p c (suback_codes packet_id res) b)

  unfoldable pub handle_subscribe :
      Connection → ℕ → List (Text × SubscribeOptions) → Broker p → Broker p
  handle_subscribe c packet_id entries b =
      answer c packet_id (subscribe_loop c entries (note p c receive subscribe b) [])

  unfoldable pub handle_subscribe_v5 :
      Connection → ℕ → List (Text × SubscribeOptions) → Broker p → Broker p
  handle_subscribe_v5 c packet_id entries b =
      answer c packet_id (subscribe_loop_v5 c entries (note p c receive subscribe b) [])

  -- `for (auto const& topic : topics) this->_subs.erase(topic);`
  unfoldable pub erase_topics : List Text → p.Index → p.Index
  erase_topics [] i = i
  erase_topics (t ∷ ts) i = erase_topics ts (p.erase_topic t i)

  unfoldable pub handle_unsubscribe : Connection → ℕ → List Text → Broker p → Broker p
  handle_unsubscribe c packet_id topics b =
      let noted = note p c receive unsubscribe b in
      note p c send unsuback (
        transmit p c (unsuback_id packet_id)
          (record noted { subs = erase_topics topics noted.subs }))

  unfoldable pub handle_unsubscribe_v5 : Connection → ℕ → List Text → Broker p → Broker p
  handle_unsubscribe_v5 c packet_id topics b =
      let noted = note p c receive unsubscribe b in
      note p c send unsuback (
        transmit p c (unsuback_id packet_id)
          (record noted { subs = erase_topics topics noted.subs }))

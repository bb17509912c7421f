-- ===== src/Broker/Requests.antt =====
-- src/threads/mqtt/broker.cpp: which packets answer a request of a client.
use octopusmq_cpp.Base.{
  ◌≡◌, refl, sym, ◌∙◌, inl, inr, Bool, true, false, Option, List, [], ◌∷◌, ◌++◌, append-nil, Text,
  Bool-cases, arith,
}
use octopusmq_cpp.Network.{Address, v3, v5, receive}
use octopusmq_cpp.Platform.{Platform, Connection}
use octopusmq_cpp.Broker.{
  Outcome, done, SubackCode, failure, topic_filter_invalid, Packet, connack_accepted, pong,
  suback_codes, unsuback_id, Broker, note, subscribe, close_connection,
}
use octopusmq_cpp.Broker.Handlers.{
  ErrorCode, SubscribeOptions, handle_close, handle_error, handle_pingreq, handle_connect_v3,
  handle_connect_v5, handle_disconnect, handle_disconnect_v5, handle_ack, handle_ack_v5,
  handle_subscribe, handle_subscribe_v5, handle_unsubscribe, handle_unsubscribe_v5, subscribe_loop,
  subscribe_loop_v5,
}
use octopusmq_cpp.Broker.Events.{Event, handle}
use octopusmq_cpp.Broker.Subscribing.{answers}
use octopusmq_cpp.Broker.Subscribing.Answered.{handle_subscribe_lem}

module _ (p : Platform) where
  -- All events but a new connection and the messages that are passed on.
  abbrev pub is_passed_on : Event p → Bool
  is_passed_on (Event.accepted c) = true
  is_passed_on (Event.publishes c opts topic contents) = true
  is_passed_on (Event.publishes_v5 c opts topic contents props) = true
  is_passed_on (Event.injects m) = true
  is_passed_on _ = false

  abbrev pub replies : Event p → List (Connection × Packet p)
  replies (Event.pings c) = (c, pong) ∷ []
  replies (Event.connects c client_id) = (c, connack_accepted v3) ∷ []
  replies (Event.connects_v5 c client_id) = (c, connack_accepted v5) ∷ []
  replies (Event.subscribes c packet_id es) = (c, suback_codes packet_id (answers failure es)) ∷ []
  replies (Event.subscribes_v5 c packet_id es) =
      (c, suback_codes packet_id (answers topic_filter_invalid es)) ∷ []
  replies (Event.unsubscribes c packet_id ts) = (c, unsuback_id packet_id) ∷ []
  replies (Event.unsubscribes_v5 c packet_id ts) = (c, unsuback_id packet_id) ∷ []
  replies _ = []

  subscribe_loop-queue :
      (c : Connection) (es : List (Text × SubscribeOptions)) (b : Broker p) (res : List SubackCode)
      → (subscribe_loop p c es b res).0.global_queue ≡ b.global_queue
  unfolding subscribe_loop
  subscribe_loop-queue c [] b res = refl
  subscribe_loop-queue c ((f, o) ∷ es) b res = subscribe_loop-queue c es _ _ ∙ ground arith

  subscribe_loop_v5-queue :
      (c : Connection) (es : List (Text × SubscribeOptions)) (b : Broker p) (res : List SubackCode)
      → (subscribe_loop_v5 p c es b res).0.global_queue ≡ b.global_queue
  unfolding subscribe_loop_v5
  subscribe_loop_v5-queue c [] b res = refl
  subscribe_loop_v5-queue c ((f, o) ∷ es) b res = subscribe_loop_v5-queue c es _ _ ∙ ground arith

  -- A handler that ends, with these packets sent and nothing queued.
  abbrev pub Replied : Broker p → List (Connection × Packet p) → Outcome (Broker p) → Type 0
  Replied b ks o =
      (b' : Broker p) × (o ≡ done b')
      × (b'.sent ≡ b.sent ++ ks)
      × (b'.global_queue ≡ b.global_queue)

  silent :
      (b b' : Broker p)
      → b'.sent ≡ b.sent
      → b'.global_queue ≡ b.global_queue
      → Replied b [] (done b')
  silent b b' s q = (b', refl, s ∙ sym (append-nil b.sent), q)

  error-Replied :
      (c : Connection) (ec : ErrorCode) (b : Broker p) → Replied b [] (done (handle_error p c ec b))
  unfolding handle_error close_connection
  error-Replied c ec b = elim (Bool-cases (b.connections c)) [
    | inl e ↦ rw (handle_error, e) (silent b _ refl refl)
    | inr e ↦ rw (handle_error, e) (silent b b refl refl)
  ]

  -- Whatever state a broker is in, the handler of every event but a new connection and a message to
  -- pass on ends without an exception and without undefined behaviour, whatever the remote ends
  -- are. It queues nothing. To a ping, a connect, a subscribe or an unsubscribe it sends exactly
  -- one packet, the answer, on the same connection; to all others, none.
  pub requests_answered :
      (peers : Connection → Option Address) (e : Event p) (b : Broker p)
      → is_passed_on e ≡ false
      → Replied b (replies e) (handle p peers e b)
  unfolding handle handle_close handle_pingreq handle_disconnect handle_disconnect_v5 handle_ack
      handle_ack_v5 handle_subscribe handle_subscribe_v5 handle_unsubscribe handle_unsubscribe_v5
      handle_connect_v3 handle_connect_v5 note close_connection
  requests_answered peers (Event.accepted c) b h = cc
  requests_answered peers (Event.publishes c opts topic contents) b h = cc
  requests_answered peers (Event.publishes_v5 c opts topic contents props) b h = cc
  requests_answered peers (Event.injects m) b h = cc
  requests_answered peers (Event.closes c) b h = silent b _ refl refl
  requests_answered peers (Event.disconnects c) b h = silent b _ refl refl
  requests_answered peers (Event.disconnects_v5 c) b h = silent b _ refl refl
  requests_answered peers (Event.acks a c) b h = silent b _ refl refl
  requests_answered peers (Event.acks_v5 a c) b h = silent b _ refl refl
  requests_answered peers (Event.fails c ec) b h = error-Replied c ec b
  requests_answered peers (Event.pings c) b h = (_, refl, refl, refl)
  requests_answered peers (Event.connects c client_id) b h = (_, refl, refl, refl)
  requests_answered peers (Event.connects_v5 c client_id) b h = (_, refl, refl, refl)
  requests_answered peers (Event.unsubscribes c packet_id ts) b h = (_, refl, refl, refl)
  requests_answered peers (Event.unsubscribes_v5 c packet_id ts) b h = (_, refl, refl, refl)
  requests_answered peers (Event.subscribes c packet_id es) b h = (
    _,
    refl,
    (handle_subscribe_lem p c packet_id es b).0.sent,
    subscribe_loop-queue c es (note p c receive subscribe b) [],
  )
  requests_answered peers (Event.subscribes_v5 c packet_id es) b h = (
    _,
    refl,
    (handle_subscribe_lem p c packet_id es b).1.sent,
    subscribe_loop_v5-queue c es (note p c receive subscribe b) [],
  )

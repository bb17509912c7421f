-- ===== src/Broker/Thread/Serving.antt =====
-- src/threads/mqtt/broker.cpp: no handler ends the thread of its broker.
use octopusmq_cpp.Base.{
  ◌≡◌, refl, ◌∙◌, inl, inr, Bool, true, false, Option, List, [], ◌∷◌, if◌then◌else◌, Text,
  Bool-cases,
}
use octopusmq_cpp.Network.{Address, receive}
use octopusmq_cpp.Scope.{valid_topic_filter}
use octopusmq_cpp.Platform.{Platform, Connection}
use octopusmq_cpp.Broker.{SubackCode, subscribe, Broker, note, close_connection}
use octopusmq_cpp.Broker.Handlers.{
  ErrorCode, SubscribeOptions, handle_close, handle_error, handle_pingreq, handle_connect_v3,
  handle_connect_v5, handle_disconnect, handle_disconnect_v5, handle_ack, handle_ack_v5,
  handle_subscribe, handle_subscribe_v5, handle_unsubscribe, handle_unsubscribe_v5, subscribe_loop,
  subscribe_loop_v5,
}
use octopusmq_cpp.Broker.Events.{Event, handle}
use octopusmq_cpp.Broker.Invariant.{After}
use octopusmq_cpp.Broker.Invariant.Sending.{
  publish_v3_keeps, publish_v5_keeps, inject_keeps, accept_keeps,
}
use octopusmq_cpp.Broker.Thread.{IsRunning}

module _ (p : Platform) where
  abbrev pub again :
      (b : Broker p)
      → IsRunning p b
      → (c : Broker p) → c.thread_joinable ≡ b.thread_joinable
      → c.listening ≡ b.listening
      → c.ioc_stopped ≡ b.ioc_stopped
      → IsRunning p c
  again b h c e l g = record {
    joinable = e ∙ h.joinable;
    listens = l ∙ h.listens;
    goes_on = g ∙ h.goes_on;
  }

  entered-IsRunning :
      (t : Bool) (i : p.Index) (b : Broker p)
      → IsRunning p b
      → IsRunning p (if t then record b { subs = i } else b)
  entered-IsRunning true i b h = again b h _ refl refl refl
  entered-IsRunning false i b h = h

  subscribe_loop-IsRunning :
      (c : Connection) (es : List (Text × SubscribeOptions)) (b : Broker p) (res : List SubackCode)
      → IsRunning p b
      → IsRunning p (subscribe_loop p c es b res).0
  unfolding subscribe_loop
  subscribe_loop-IsRunning c [] b res h = h
  subscribe_loop-IsRunning c ((f, o) ∷ es) b res h =
      subscribe_loop-IsRunning c es _ _ (entered-IsRunning (valid_topic_filter f) _ b h)

  subscribe_loop_v5-IsRunning :
      (c : Connection) (es : List (Text × SubscribeOptions)) (b : Broker p) (res : List SubackCode)
      → IsRunning p b
      → IsRunning p (subscribe_loop_v5 p c es b res).0
  unfolding subscribe_loop_v5
  subscribe_loop_v5-IsRunning c [] b res h = h
  subscribe_loop_v5-IsRunning c ((f, o) ∷ es) b res h =
      subscribe_loop_v5-IsRunning c es _ _ (entered-IsRunning (valid_topic_filter f) _ b h)

  error-IsRunning :
      (c : Connection) (ec : ErrorCode) (b : Broker p)
      → IsRunning p b
      → IsRunning p (handle_error p c ec b)
  unfolding handle_error close_connection
  error-IsRunning c ec b h = elim (Bool-cases (b.connections c)) [
    | inl e ↦ rw (handle_error, e) (again b h _ refl refl refl)
    | inr e ↦ rw (handle_error, e) h
  ]

  pub handle-IsRunning :
      (peers : Connection → Option Address) (e : Event p) (b : Broker p)
      → IsRunning p b
      → After (IsRunning p) (handle p peers e b)
  unfolding handle handle_close handle_pingreq handle_disconnect handle_disconnect_v5 handle_ack
      handle_ack_v5 handle_subscribe handle_subscribe_v5 handle_unsubscribe handle_unsubscribe_v5
      handle_connect_v3 handle_connect_v5 note close_connection
  handle-IsRunning peers (Event.accepted c) b h =
      accept_keeps p peers (IsRunning p) (λ b _ _ _ h. again b h _ refl refl refl)
        (λ b _ _ h. again b h _ refl refl refl) c b h
  handle-IsRunning peers (Event.closes c) b h = again b h _ refl refl refl
  handle-IsRunning peers (Event.pings c) b h = again b h _ refl refl refl
  handle-IsRunning peers (Event.disconnects c) b h = again b h _ refl refl refl
  handle-IsRunning peers (Event.disconnects_v5 c) b h = again b h _ refl refl refl
  handle-IsRunning peers (Event.fails c ec) b h = error-IsRunning c ec b h
  handle-IsRunning peers (Event.connects c client_id) b h = again b h _ refl refl refl
  handle-IsRunning peers (Event.connects_v5 c client_id) b h = again b h _ refl refl refl
  handle-IsRunning peers (Event.acks a c) b h = again b h _ refl refl refl
  handle-IsRunning peers (Event.acks_v5 a c) b h = again b h _ refl refl refl
  handle-IsRunning peers (Event.publishes c opts topic contents) b h =
      publish_v3_keeps p peers (IsRunning p) (λ b _ _ _ h. again b h _ refl refl refl)
        (λ b _ _ h. again b h _ refl refl refl) c opts topic contents b h
  handle-IsRunning peers (Event.publishes_v5 c opts topic contents props) b h =
      publish_v5_keeps p peers (IsRunning p) (λ b _ _ _ h. again b h _ refl refl refl)
        (λ b _ _ h. again b h _ refl refl refl) c opts topic contents props b h
  handle-IsRunning peers (Event.subscribes c packet_id es) b h =
      again _
        (subscribe_loop-IsRunning c es (note p c receive subscribe b) []
          (again b h _ refl refl refl))
        _ refl refl refl
  handle-IsRunning peers (Event.subscribes_v5 c packet_id es) b h =
      again _
        (subscribe_loop_v5-IsRunning c es (note p c receive subscribe b) []
          (again b h _ refl refl refl))
        _ refl refl refl
  handle-IsRunning peers (Event.unsubscribes c packet_id ts) b h = again b h _ refl refl refl
  handle-IsRunning peers (Event.unsubscribes_v5 c packet_id ts) b h = again b h _ refl refl refl
  handle-IsRunning peers (Event.injects m) b h =
      inject_keeps p peers (IsRunning p) (λ b _ _ _ h. again b h _ refl refl refl)
        (λ b _ _ h. again b h _ refl refl refl) m b h

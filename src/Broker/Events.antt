-- ===== src/Broker/Events.antt =====
-- src/threads/mqtt/broker.cpp: a broker as a state machine. The network calls one handler at a
-- time, in the thread that runs `worker`.
use octopusmq_cpp.Base.{ℕ, ◌≡◌, Option, List, Text}
use octopusmq_cpp.Network.{Address}
use octopusmq_cpp.Platform.{Platform, PublishOptions, Connection}
use octopusmq_cpp.Message.{Message}
use octopusmq_cpp.Broker.{Outcome, done, threw, Action, Broker}
use octopusmq_cpp.Broker.Delivery.{handle_publish_v3, handle_publish_v5, inject_publish}
use octopusmq_cpp.Broker.Handlers.{
  ErrorCode, SubscribeOptions, accept, handle_close, handle_error, handle_pingreq,
  handle_connect_v3, handle_connect_v5, handle_disconnect, handle_disconnect_v5, handle_ack,
  handle_ack_v5, handle_subscribe, handle_subscribe_v5, handle_unsubscribe, handle_unsubscribe_v5,
}

pub data Event (p : Platform) : Type 0 where
  accepted closes pings disconnects disconnects_v5 : Connection → Event p
  fails : Connection → ErrorCode → Event p
  connects connects_v5 : Connection → (client_id : Text) → Event p
  acks acks_v5 : Action → Connection → Event p
  publishes : Connection → PublishOptions → (topic : Text) → (contents : Text) → Event p
  publishes_v5 :
      Connection → PublishOptions → (topic : Text) → (contents : Text) → p.Props → Event p
  subscribes subscribes_v5 : Connection → (packet_id : ℕ) → List (Text × SubscribeOptions) → Event p
  unsubscribes unsubscribes_v5 : Connection → (packet_id : ℕ) → List Text → Event p
  injects : Message p → Event p

module _ (p : Platform) where
  -- The events that the thread of a broker handles; `inject_publish` is called by the main thread.
  abbrev pub FromNetwork : Event p → Type 0
  FromNetwork (injects m) = ⊥
  FromNetwork _ = Unit

  unfoldable pub handle : (Connection → Option Address) → Event p → Broker p → Outcome (Broker p)
  handle peers (accepted c) b = accept p peers c b
  handle peers (closes c) b = done (handle_close p c b)
  handle peers (pings c) b = done (handle_pingreq p c b)
  handle peers (disconnects c) b = done (handle_disconnect p c b)
  handle peers (disconnects_v5 c) b = done (handle_disconnect_v5 p c b)
  handle peers (fails c ec) b = done (handle_error p c ec b)
  handle peers (connects c client_id) b = done (handle_connect_v3 p c client_id b)
  handle peers (connects_v5 c client_id) b = done (handle_connect_v5 p c client_id b)
  handle peers (acks a c) b = done (handle_ack p a c b)
  handle peers (acks_v5 a c) b = done (handle_ack_v5 p a c b)
  handle peers (publishes c opts topic contents) b =
      handle_publish_v3 p peers c opts topic contents b
  handle peers (publishes_v5 c opts topic contents props) b =
      handle_publish_v5 p peers c opts topic contents props b
  handle peers (subscribes c packet_id es) b = done (handle_subscribe p c packet_id es b)
  handle peers (subscribes_v5 c packet_id es) b = done (handle_subscribe_v5 p c packet_id es b)
  handle peers (unsubscribes c packet_id ts) b = done (handle_unsubscribe p c packet_id ts b)
  handle peers (unsubscribes_v5 c packet_id ts) b = done (handle_unsubscribe_v5 p c packet_id ts b)
  handle peers (injects m) b = inject_publish p peers m b

  -- The states that some events lead to, one after the other; the remote ends may change between
  -- them. An exception leaves the state that its handler had made.
  pub data Reach (b : Broker p) : Broker p → Type 0 where
    start : Reach b b
    step :
        {c d : Broker p} (peers : Connection → Option Address) (e : Event p)
        → Reach b c
        → handle peers e c ≡ done d
        → Reach b d
    step_threw :
        {c d : Broker p} (peers : Connection → Option Address) (e : Event p)
        → Reach b c
        → handle peers e c ≡ threw d
        → Reach b d

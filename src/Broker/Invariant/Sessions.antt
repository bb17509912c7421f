-- ===== src/Broker/Invariant/Sessions.antt =====
-- src/threads/mqtt/broker.cpp: every handler keeps the invariant, so every state that is reached
-- has it.
use octopusmq_cpp.Base.{
  ℕ, refl, subst, inl, inr, true, Option, some, List, [], ◌∷◌, if◌then◌else◌, Bool-cases, Text,
}
use octopusmq_cpp.Network.{Address}
use octopusmq_cpp.Scope.{valid_topic_filter}
use octopusmq_cpp.Scope.Tokens.{valid_topic_filter_iff}
use octopusmq_cpp.Platform.{Platform, Connection, Subscription}
use octopusmq_cpp.Message.{Message}
use octopusmq_cpp.Broker.{Entry, Metadata, Packet, SubackCode, Broker, update, init, transmit}
use octopusmq_cpp.Broker.Handlers.{
  ErrorCode, SubscribeOptions, handle_close, handle_error, handle_pingreq, handle_connect_v3,
  handle_connect_v5, handle_disconnect, handle_disconnect_v5, handle_ack, handle_ack_v5,
  handle_subscribe, handle_subscribe_v5, handle_unsubscribe, handle_unsubscribe_v5, subscribe_loop,
  subscribe_loop_v5, erase_topics,
}
use octopusmq_cpp.Broker.Events.{Event, handle, Reach}
use octopusmq_cpp.Broker.Invariant.{
  After, Known-connect, Known-set, Subscribed, Inv, note-Inv, close-Inv, same-Inv, with_subs-Inv,
  erase_topic-Subscribed, emplace-Subscribed,
}
use octopusmq_cpp.Broker.Invariant.Sending.{
  publish_v3_keeps, publish_v5_keeps, inject_keeps, accept_keeps,
}

module _ (p : Platform) where
  error-Inv :
      (c : Connection) (ec : ErrorCode) (b : Broker p) → (Inv p) b → (Inv p) (handle_error p c ec b)
  unfolding handle_error
  error-Inv c ec b v = elim (Bool-cases (b.connections c)) [
    | inl e ↦ rw (handle_error, e) (close-Inv p c _ (same-Inv p b _ refl refl refl v))
    | inr e ↦ rw (handle_error, e) v
  ]

  connected-Inv :
      (c : Connection) (m : Metadata) (b : Broker p)
      → (Inv p) b
      → (Inv p)
          (record b { connections = update b.connections c true; meta = update b.meta c (some m) })
  connected-Inv c m b v = record {
    subscribed = v.subscribed;
    known = Known-connect b.connections b.meta c m v.known;
  }

  transmit-Inv :
      (c : Connection) (k : Packet p) (b : Broker p) → (Inv p) b → (Inv p) (transmit p c k b)
  transmit-Inv c k b v = same-Inv p b _ refl refl refl v

  connect_v3-Inv :
      (c : Connection) (client_id : Text) (b : Broker p)
      → (Inv p) b
      → (Inv p) (handle_connect_v3 p c client_id b)
  unfolding handle_connect_v3
  connect_v3-Inv c client_id b v =
      note-Inv p c _ _ _ (transmit-Inv c _ _ (note-Inv p c _ _ _ (connected-Inv c _ b v)))

  connect_v5-Inv :
      (c : Connection) (client_id : Text) (b : Broker p)
      → (Inv p) b
      → (Inv p) (handle_connect_v5 p c client_id b)
  unfolding handle_connect_v5
  connect_v5-Inv c client_id b v =
      note-Inv p c _ _ _ (transmit-Inv c _ _ (note-Inv p c _ _ _ (connected-Inv c _ b v)))

  -- One entry of a subscribe packet.
  enter-Inv :
      (s : Subscription) (b : Broker p)
      → (Inv p) b
      → (Inv p)
          (if valid_topic_filter s.topic_filter then record b { subs = p.emplace s b.subs } else b)
  enter-Inv s b v = elim (Bool-cases (valid_topic_filter s.topic_filter)) [
    | inl e ↦ rw e (
        with_subs-Inv p b _ v (
          emplace-Subscribed p s b.subs ((valid_topic_filter_iff s.topic_filter).0 e) v.subscribed))
    | inr e ↦ rw e v
  ]

  subscribe_loop-Inv :
      (c : Connection) (es : List (Text × SubscribeOptions)) (b : Broker p) (res : List SubackCode)
      → (Inv p) b
      → (Inv p) (subscribe_loop p c es b res).0
  unfolding subscribe_loop
  subscribe_loop-Inv c [] b res v = v
  subscribe_loop-Inv c ((f, o) ∷ es) b res v = subscribe_loop-Inv c es _ _ (enter-Inv _ b v)

  subscribe_loop_v5-Inv :
      (c : Connection) (es : List (Text × SubscribeOptions)) (b : Broker p) (res : List SubackCode)
      → (Inv p) b
      → (Inv p) (subscribe_loop_v5 p c es b res).0
  unfolding subscribe_loop_v5
  subscribe_loop_v5-Inv c [] b res v = v
  subscribe_loop_v5-Inv c ((f, o) ∷ es) b res v = subscribe_loop_v5-Inv c es _ _ (enter-Inv _ b v)

  erase_topics-Subscribed :
      (ts : List Text) (i : p.Index)
      → Subscribed (p.by_topic i)
      → Subscribed (p.by_topic (erase_topics p ts i))
  unfolding erase_topics
  erase_topics-Subscribed [] i h = h
  erase_topics-Subscribed (t ∷ ts) i h =
      erase_topics-Subscribed ts _ (erase_topic-Subscribed p t i h)

  unsubscribe-Inv :
      (c : Connection) (packet_id : ℕ) (ts : List Text) (b : Broker p)
      → (Inv p) b
      → (Inv p) (handle_unsubscribe p c packet_id ts b)
  unfolding handle_unsubscribe
  unsubscribe-Inv c packet_id ts b v =
      let noted = note-Inv p c _ _ b v in
      note-Inv p c _ _ _ (
        transmit-Inv c _ _
          (with_subs-Inv p _ _ noted (erase_topics-Subscribed ts _ noted.subscribed)))

  noted-Inv :
      (b : Broker p) (c : Connection) (m : Metadata) (log : List Entry)
      → Inv p b
      → Inv p (record b { meta = update b.meta c (some m); log = log })
  noted-Inv b c m log v = record {
    subscribed = v.subscribed;
    known = Known-set b.connections b.meta c m v.known;
  }

  posted-Inv :
      (b : Broker p) (sent : List (Connection × Packet p)) (queue : List (ℕ × Message p))
      → Inv p b
      → Inv p (record b { sent = sent; global_queue = queue })
  posted-Inv b sent queue v = same-Inv p b _ refl refl refl v

  -- Every handler keeps the invariant, also where it throws.
  pub handle-Inv :
      (peers : Connection → Option Address) (e : Event p) (b : Broker p)
      → (Inv p) b
      → After (Inv p) (handle p peers e b)
  unfolding handle handle_close handle_pingreq handle_disconnect handle_disconnect_v5 handle_ack
      handle_ack_v5 handle_subscribe handle_subscribe_v5 handle_unsubscribe handle_unsubscribe_v5
  handle-Inv peers (Event.accepted c) b v = accept_keeps p peers (Inv p) noted-Inv posted-Inv c b v
  handle-Inv peers (Event.closes c) b v = close-Inv p c _ (same-Inv p b _ refl refl refl v)
  handle-Inv peers (Event.pings c) b v =
      note-Inv p c _ _ _ (transmit-Inv c _ _ (note-Inv p c _ _ b v))
  handle-Inv peers (Event.disconnects c) b v = close-Inv p c _ (note-Inv p c _ _ b v)
  handle-Inv peers (Event.disconnects_v5 c) b v = close-Inv p c _ (note-Inv p c _ _ b v)
  handle-Inv peers (Event.fails c ec) b v = error-Inv c ec b v
  handle-Inv peers (Event.connects c client_id) b v = connect_v3-Inv c client_id b v
  handle-Inv peers (Event.connects_v5 c client_id) b v = connect_v5-Inv c client_id b v
  handle-Inv peers (Event.acks a c) b v = note-Inv p c _ _ b v
  handle-Inv peers (Event.acks_v5 a c) b v = note-Inv p c _ _ b v
  handle-Inv peers (Event.publishes c opts topic contents) b v =
      publish_v3_keeps p peers (Inv p) noted-Inv posted-Inv c opts topic contents b v
  handle-Inv peers (Event.publishes_v5 c opts topic contents props) b v =
      publish_v5_keeps p peers (Inv p) noted-Inv posted-Inv c opts topic contents props b v
  handle-Inv peers (Event.subscribes c packet_id es) b v =
      note-Inv p c _ _ _ (transmit-Inv c _ _ (subscribe_loop-Inv c es _ [] (note-Inv p c _ _ b v)))
  handle-Inv peers (Event.subscribes_v5 c packet_id es) b v =
      note-Inv p c _ _ _
        (transmit-Inv c _ _ (subscribe_loop_v5-Inv c es _ [] (note-Inv p c _ _ b v)))
  handle-Inv peers (Event.unsubscribes c packet_id ts) b v = unsubscribe-Inv c packet_id ts b v
  handle-Inv peers (Event.unsubscribes_v5 c packet_id ts) b v = unsubscribe-Inv c packet_id ts b v
  handle-Inv peers (Event.injects m) b v = inject_keeps p peers (Inv p) noted-Inv posted-Inv m b v

  pub init-Inv : (settings : ℕ) (queue : List (ℕ × Message p)) → (Inv p) (init p settings queue)
  unfolding init
  init-Inv settings queue = record {
    subscribed = rw p.by_topic-no_subs (tt, tt);
    known = λ c h. absurd (cc);
  }

  Reach-Inv : {b c : Broker p} → Reach p b c → Inv p b → Inv p c
  Reach-Inv Reach.start v = v
  Reach-Inv (Reach.step {c = c} peers e r h) v =
      subst (After (Inv p)) h (handle-Inv peers e c (Reach-Inv r v))
  Reach-Inv (Reach.step_threw {c = c} peers e r h) v =
      subst (After (Inv p)) h (handle-Inv peers e c (Reach-Inv r v))

  -- Whatever events a new broker has handled, also where a handler threw: no connection has two
  -- subscriptions with one topic filter, every stored topic filter is valid, and every connection
  -- that has logged in and not gone has metadata.
  pub reachable-Inv :
      (settings : ℕ) (queue : List (ℕ × Message p)) (b : Broker p)
      → Reach p (init p settings queue) b
      → Inv p b
  reachable-Inv settings queue b r = Reach-Inv r (init-Inv settings queue)

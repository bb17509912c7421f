-- ===== src/Broker/Table/Refines.antt =====
-- The handlers of a broker, by what they do to the table of its subscriptions.
use octopusmq_cpp.Base.{
  ℕ, ◌≡◌, refl, sym, ap, ◌∙◌, subst, inl, inr, Bool, false, ◌||◌, Option, List, [], ◌∷◌, ◌++◌,
  if◌then◌else◌, Text, text_eq, Bool-cases, arith,
}
use mathlib.Core.Path.{ap₂, fun_ext}
use octopusmq_cpp.Network.{Address}
use octopusmq_cpp.Scope.{valid_topic_filter}
use octopusmq_cpp.Platform.{Platform, Connection, Subscription}
use octopusmq_cpp.Message.{Message}
use octopusmq_cpp.Broker.{
  Outcome, done, threw, SubackCode, Broker, update, note, close_connection, init,
}
use octopusmq_cpp.Broker.Handlers.{
  ErrorCode, handle_close, handle_error, handle_pingreq, handle_connect_v3, handle_connect_v5,
  handle_disconnect, handle_disconnect_v5, handle_ack, handle_ack_v5, handle_subscribe,
  handle_subscribe_v5, handle_unsubscribe, handle_unsubscribe_v5, subscribe_loop, subscribe_loop_v5,
  erase_topics,
}
use octopusmq_cpp.Broker.Events.{Event, handle, Reach}
use octopusmq_cpp.Broker.Invariant.{After}
use octopusmq_cpp.Broker.Invariant.Sending.{
  publish_v3_keeps, publish_v5_keeps, inject_keeps, accept_keeps,
}
use octopusmq_cpp.Broker.Subscribing.{Entry}
use octopusmq_cpp.Broker.Subscribing.Answered.{plain, with_options}
use octopusmq_cpp.Broker.Table.{
  Options, Table, nobody, lookup, enter, enter_valid, is_listed, remove, of_entries, leave,
  table_of, changed, changed_by,
}
use octopusmq_cpp.Broker.Table.Lookup.{lookup-emplace, lookup-erase_topic, lookup-erase_connection}

module _ (p : Platform) where
  abbrev options_of : Broker p → Options
  options_of b = lookup (p.by_topic b.subs)

  abbrev table : (Connection → Bool) → Options → Table
  table connections options = record { connections = connections; options = options }

  entered :
      (s : Subscription) (b : Broker p)
      → options_of
          (if valid_topic_filter s.topic_filter then record b { subs = p.emplace s b.subs } else b)
        ≡ (if valid_topic_filter s.topic_filter then enter s (options_of b) else options_of b)
  entered s b = elim (Bool-cases (valid_topic_filter s.topic_filter)) [
    | inl v ↦ rw v (lookup-emplace p s b.subs)
    | inr v ↦ rw v refl
  ]

  subscribe_loop-options :
      (c : Connection) (es : List Entry) (b : Broker p) (res : List SubackCode)
      → options_of (subscribe_loop p c es b res).0
        ≡ enter_valid (of_entries (plain p c) es) (options_of b)
  unfolding subscribe_loop
  subscribe_loop-options c [] b res = refl
  subscribe_loop-options c ((f, o) ∷ es) b res =
      subscribe_loop-options c es _ _
      ∙ ap (enter_valid (of_entries (plain p c) es)) (entered (plain p c (f, o)) b)

  subscribe_loop_v5-options :
      (c : Connection) (es : List Entry) (b : Broker p) (res : List SubackCode)
      → options_of (subscribe_loop_v5 p c es b res).0
        ≡ enter_valid (of_entries (with_options p c) es) (options_of b)
  unfolding subscribe_loop_v5
  subscribe_loop_v5-options c [] b res = refl
  subscribe_loop_v5-options c ((f, o) ∷ es) b res =
      subscribe_loop_v5-options c es _ _
      ∙ ap (enter_valid (of_entries (with_options p c) es)) (entered (with_options p c (f, o)) b)

  subscribe_loop-connections :
      (c : Connection) (es : List Entry) (b : Broker p) (res : List SubackCode)
      → (subscribe_loop p c es b res).0.connections ≡ b.connections
  unfolding subscribe_loop
  subscribe_loop-connections c [] b res = refl
  subscribe_loop-connections c ((f, o) ∷ es) b res =
      subscribe_loop-connections c es _ _ ∙ ground arith

  subscribe_loop_v5-connections :
      (c : Connection) (es : List Entry) (b : Broker p) (res : List SubackCode)
      → (subscribe_loop_v5 p c es b res).0.connections ≡ b.connections
  unfolding subscribe_loop_v5
  subscribe_loop_v5-connections c [] b res = refl
  subscribe_loop_v5-connections c ((f, o) ∷ es) b res =
      subscribe_loop_v5-connections c es _ _ ∙ ground arith

  remove-remove :
      (a b : Connection → Text → Bool) (t : Options)
      → remove b (remove a t) ≡ remove (λ c f. a c f || b c f) t
  remove-remove a b t = fun_ext (λ c. fun_ext (λ f. ground arith))

  erase_topics-options :
      (ts : List Text) (i : p.Index)
      → lookup (p.by_topic (erase_topics p ts i))
        ≡ remove (λ c f. is_listed ts f) (lookup (p.by_topic i))
  unfolding erase_topics
  erase_topics-options [] i = refl
  erase_topics-options (t ∷ ts) i =
      erase_topics-options ts (p.erase_topic t i)
      ∙ ap (remove (λ c f. is_listed ts f)) (lookup-erase_topic p t i)
      ∙ remove-remove (λ c f. text_eq f t) (λ c f. is_listed ts f) (lookup (p.by_topic i))

  close-leave :
      (c : Connection) (b : Broker p) → table_of p (close_connection p c b) ≡ leave c (table_of p b)
  unfolding close_connection
  close-leave c b =
      ap (λ (t : Options). table (update b.connections c false) t)
        (lookup-erase_connection p c b.subs)

  error-changed :
      (c : Connection) (ec : ErrorCode) (b : Broker p)
      → table_of p (handle_error p c ec b) ≡ changed p (Event.fails c ec) (table_of p b)
  unfolding handle_error
  error-changed c ec b = elim (Bool-cases (b.connections c)) [
    | inl e ↦ rw (handle_error, e) (close-leave c _)
    | inr e ↦ rw (handle_error, e) refl
  ]

  -- Every event changes the table of connections and subscriptions as `changed` says, whatever the
  -- order in the container, also where its handler throws.
  pub handle-changed :
      (peers : Connection → Option Address) (e : Event p) (b : Broker p)
      → After (λ b'. table_of p b' ≡ changed p e (table_of p b)) (handle p peers e b)
  unfolding handle handle_close handle_pingreq handle_disconnect handle_disconnect_v5 handle_ack
      handle_ack_v5 handle_subscribe handle_subscribe_v5 handle_unsubscribe handle_unsubscribe_v5
      handle_connect_v3 handle_connect_v5 note
  handle-changed peers (Event.accepted c) b =
      accept_keeps p peers (λ b'. table_of p b' ≡ table_of p b) (λ _ _ _ _ h. h) (λ _ _ _ h. h) c b
        refl
  handle-changed peers (Event.closes c) b = close-leave c _
  handle-changed peers (Event.pings c) b = refl
  handle-changed peers (Event.disconnects c) b = close-leave c _
  handle-changed peers (Event.disconnects_v5 c) b = close-leave c _
  handle-changed peers (Event.fails c ec) b = error-changed c ec b
  handle-changed peers (Event.connects c client_id) b = refl
  handle-changed peers (Event.connects_v5 c client_id) b = refl
  handle-changed peers (Event.acks a c) b = refl
  handle-changed peers (Event.acks_v5 a c) b = refl
  handle-changed peers (Event.publishes c opts topic contents) b =
      publish_v3_keeps p peers (λ b'. table_of p b' ≡ table_of p b) (λ _ _ _ _ h. h) (λ _ _ _ h. h)
        c opts topic contents b refl
  handle-changed peers (Event.publishes_v5 c opts topic contents props) b =
      publish_v5_keeps p peers (λ b'. table_of p b' ≡ table_of p b) (λ _ _ _ _ h. h) (λ _ _ _ h. h)
        c opts topic contents props b refl
  handle-changed peers (Event.subscribes c packet_id es) b =
      ap₂ table (subscribe_loop-connections c es _ []) (subscribe_loop-options c es _ [])
  handle-changed peers (Event.subscribes_v5 c packet_id es) b =
      ap₂ table (subscribe_loop_v5-connections c es _ []) (subscribe_loop_v5-options c es _ [])
  handle-changed peers (Event.unsubscribes c packet_id ts) b =
      ap (table b.connections) (erase_topics-options ts b.subs)
  handle-changed peers (Event.unsubscribes_v5 c packet_id ts) b =
      ap (table b.connections) (erase_topics-options ts b.subs)
  handle-changed peers (Event.injects m) b =
      inject_keeps p peers (λ b'. table_of p b' ≡ table_of p b) (λ _ _ _ _ h. h) (λ _ _ _ h. h) m b
        refl

  -- The events of a run, in their order.
  abbrev pub events_of : {b c : Broker p} → Reach p b c → List (Event p)
  events_of Reach.start = []
  events_of (Reach.step peers e r h) = events_of r ++ e ∷ []
  events_of (Reach.step_threw peers e r h) = events_of r ++ e ∷ []

  changed_by-append :
      (es : List (Event p)) (e : Event p) (t : Table)
      → changed_by p (es ++ e ∷ []) t ≡ changed p e (changed_by p es t)
  changed_by-append [] e t = refl
  changed_by-append (x ∷ es) e t = changed_by-append es e (changed p x t)

  stepped :
      (b : Broker p) (peers : Connection → Option Address) (e : Event p) (c : Broker p)
      (o : Outcome (Broker p)) (es : List (Event p))
      → handle p peers e c ≡ o
      → table_of p c ≡ changed_by p es (table_of p b)
      → After (λ d. table_of p d ≡ changed_by p (es ++ e ∷ []) (table_of p b)) o
  stepped b peers e c o es h same =
      subst (λ t. After (λ d. table_of p d ≡ t) o)
        (ap (changed p e) same ∙ sym (changed_by-append es e _))
        (subst (After (λ d. table_of p d ≡ changed p e (table_of p c))) h
          (handle-changed peers e c))

  Reach-changed :
      (b : Broker p) {c : Broker p} (r : Reach p b c)
      → table_of p c ≡ changed_by p (events_of r) (table_of p b)
  Reach-changed b Reach.start = refl
  Reach-changed b (Reach.step {c = c} {d = d} peers e r h) =
      stepped b peers e c (done d) (events_of r) h (Reach-changed b r)
  Reach-changed b (Reach.step_threw {c = c} {d = d} peers e r h) =
      stepped b peers e c (threw d) (events_of r) h (Reach-changed b r)

  -- After any events, also where a handler threw, who is connected to a new broker and which
  -- connection is subscribed to which filter, with which options, is what the events say one after
  -- the other: a connect enters the connection; a subscribe stores the options of each valid filter
  -- for which the connection has none, and changes none that it has; an unsubscribe removes its
  -- filters for all connections; a close, a disconnect or an error of a connection that has logged
  -- in removes all of its filters and the connection itself; and everything else changes nothing.
  pub reachable-changed :
      (settings : ℕ) (queue : List (ℕ × Message p)) (b : Broker p)
      (r : Reach p (init p settings queue) b)
      → table_of p b ≡ changed_by p (events_of r) nobody
  unfolding init
  reachable-changed settings queue b r =
      Reach-changed (init p settings queue) r
      ∙ ap (λ ss. changed_by p (events_of r) (table (λ c. false) (lookup ss))) p.by_topic-no_subs

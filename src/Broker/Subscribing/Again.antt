-- ===== src/Broker/Subscribing/Again.antt =====
-- src/threads/mqtt/broker.cpp: a subscribe to a filter that the connection is subscribed to
-- already.
use octopusmq_cpp.Base.{ℕ, ◌≡◌, refl, ◌∙◌, true, [], ◌∷◌, ◌++◌, Text}
use octopusmq_cpp.Scope.Filters.{ValidFilter}
use octopusmq_cpp.Scope.Tokens.{valid_topic_filter_iff}
use octopusmq_cpp.Platform.{Platform, Connection, Subscription}
use octopusmq_cpp.Broker.{Broker, granted, suback_codes, note}
use octopusmq_cpp.Broker.Handlers.{
  SubscribeOptions, handle_subscribe, subscribe_loop, handle_subscribe_v5, subscribe_loop_v5,
}
use octopusmq_cpp.Broker.Subscribing.{is_subscribed, is_subscribed-key}
use octopusmq_cpp.Broker.Subscribing.Answered.{plain, with_options}

module _ (p : Platform) where
  -- A broker that keeps its subscriptions, and answers one entry by a quality of service.
  abbrev pub Grants : Connection → ℕ → SubscribeOptions → Broker p → Broker p → Type 0
  Grants c packet_id o b b' =
      (p.by_topic b'.subs ≡ p.by_topic b.subs)
      × (b'.sent ≡ b.sent ++ (c, suback_codes packet_id (granted o.qos ∷ [])) ∷ [])

  emplace_again :
      (s : Subscription) (b : Broker p)
      → is_subscribed s.con s.topic_filter (p.by_topic b.subs) ≡ true
      → p.by_topic (p.emplace s b.subs) ≡ p.by_topic b.subs
  emplace_again s b h = p.emplace_old s b.subs (is_subscribed-key s (p.by_topic b.subs) ∙ h)

  -- If a connection subscribes again to a valid filter, then the answer grants the quality of
  -- service that was asked for now, while all subscriptions stay as they are, the older one of this
  -- connection with its older quality of service and options.
  pub subscribe_again :
      (c : Connection) (packet_id : ℕ) (f : Text) (o : SubscribeOptions) (b : Broker p)
      → ValidFilter f
      → is_subscribed c f (p.by_topic b.subs) ≡ true
      → Grants c packet_id o b (handle_subscribe p c packet_id ((f, o) ∷ []) b)
        × Grants c packet_id o b (handle_subscribe_v5 p c packet_id ((f, o) ∷ []) b)
  unfolding handle_subscribe subscribe_loop handle_subscribe_v5 subscribe_loop_v5 note
  subscribe_again c packet_id f o b v h =
      let valid = (valid_topic_filter_iff f).1 v in
      (
        (
          rw (handle_subscribe, valid) (emplace_again (plain p c (f, o)) b h),
          rw (handle_subscribe, valid) refl,
        ),
        (
          rw (handle_subscribe_v5, valid) (emplace_again (with_options p c (f, o)) b h),
          rw (handle_subscribe_v5, valid) refl,
        ),
      )

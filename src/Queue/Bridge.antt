-- ===== src/Queue/Bridge.antt =====
-- src/threads/mqtt/broker.cpp with src/network/adapter.cpp: a message on its way from a client of
-- one broker to the subscribers of another.
use octopusmq_cpp.Base.{
  ℕ, ◌≡◌, refl, sym, ap, ◌∙◌, subst, ◌≢◌, Bool, true, false, Option, some, List, [], ◌∷◌, ◌++◌,
  append_assoc, append-nil, ◌==◌, All, Text, arith,
}
use octopusmq_cpp.Network.{Address}
use octopusmq_cpp.Scope.{includes}
use octopusmq_cpp.Platform.{Platform, PublishOptions, Connection, Subscription, min_qos}
use octopusmq_cpp.Message.{Message, published}
use octopusmq_cpp.Broker.{done, each, Broker, Packet, publish_v3}
use octopusmq_cpp.Broker.Delivery.{injected_packet, handle_publish_v3, handle_publish_v5}
use octopusmq_cpp.Broker.Publishing.{hits, outgoing, Passed, IsReachable}
use octopusmq_cpp.Broker.Forwarding.{
  packet_v5, handle_publish_v3-Forwarded, handle_publish_v5-Forwarded, injected_packet-published,
}
use octopusmq_cpp.Adapter.{Slot}
use octopusmq_cpp.Queue.{Queue, offer}
use octopusmq_cpp.Queue.Delivered.{running, packets_for, packets, IsServable, served-Passed}

All-snoc {ℓ} :
    {A : Type ℓ} (P : A → Type 0) (xs : List A) (x : A) → All P xs → P x → All P (xs ++ x ∷ [])
All-snoc P [] x h k = (k, tt)
All-snoc P (y ∷ xs) x h k = (h.0, All-snoc P xs x h.1 k)

module _ (p : Platform) (peers : Connection → Option Address) where
  packets-append :
      (s : Slot p) (subs : List Subscription) (q r : Queue p)
      → packets p peers s subs (q ++ r) ≡ packets p peers s subs q ++ packets p peers s subs r
  packets-append s subs [] r = refl
  packets-append s subs (item ∷ q) r = rw (packets-append s subs q r) (
      sym (
        append_assoc (packets_for p peers s subs item) (packets p peers s subs q)
          (packets p peers s subs r)))

  outgoing_same :
      (want : Subscription → Bool) (f g : Subscription → Packet p)
      → ((r : Subscription) → f r ≡ g r)
      → (subs : List Subscription) → outgoing p want f subs ≡ outgoing p want g subs
  outgoing_same want f g h [] = refl
  outgoing_same want f g h (r ∷ subs) = ground (arith, h r, outgoing_same want f g h subs)

  -- Another broker that is offered a queue to which a message was pushed.
  abbrev pub Reaches :
      Slot p → Broker p → Queue p → Queue p → Text → (Subscription → Packet p) → Type 0
  Reaches s b before after topic packet =
      (b' : Broker p) × (each (offer p peers) after (running p peers s b)
        ≡ done (running p peers s b'))
      × Passed p b
          (packets p peers s (p.by_topic b.subs) before
            ++ outgoing p (hits topic) packet (p.by_topic b.subs))
          b'

  packets_foreign :
      (s : Slot p) (subs : List Subscription) (id : ℕ) (m : Message p)
      (packet : Subscription → Packet p)
      → s.id ≢ id
      → includes s.settings.scope m.topic ≡ some true
      → ((r : Subscription) → injected_packet p peers m r ≡ packet r)
      → packets p peers s subs ((id, m) ∷ []) ≡ outgoing p (hits m.topic) packet subs
  packets_foreign s subs id m packet foreign included same =
      let other : (s.id == id) ≡ false = ground (arith, foreign) in
      rw (other, included) (append-nil _ ∙ outgoing_same (hits m.topic) _ packet same subs)

  -- It sends what it would have sent for the queue before, and then the message.
  carried :
      (s : Slot p) (b : Broker p) (q q' : Queue p) (id : ℕ) (m : Message p)
      (packet : Subscription → Packet p)
      → q' ≡ q ++ (id, m) ∷ []
      → s.id ≢ id
      → includes s.settings.scope m.topic ≡ some true
      → All (IsServable p peers s (p.by_topic b.subs)) q
      → All (IsReachable p peers m.topic) (p.by_topic b.subs)
      → ((r : Subscription) → injected_packet p peers m r ≡ packet r)
      → Reaches s b q q' m.topic packet
  carried s b q q' id m packet pushed foreign included servable reachable same =
      let subs = p.by_topic b.subs in
      let (b', e, passed) =
        served-Passed p peers s b (q ++ (id, m) ∷ [])
          (All-snoc (IsServable p peers s subs) q (id, m) servable ((λ n. cc), reachable)) in
      (
        b',
        subst (λ x. each (offer p peers) x (running p peers s b) ≡ done (running p peers s b'))
            (sym pushed) e,
        subst (λ ks. Passed p b ks b')
            (packets-append s subs q _
              ∙ ap (λ ks. packets p peers s subs q ++ ks)
                  (packets_foreign s subs id m packet foreign included same))
            passed,
      )

  -- Let a client publish to one broker, and another broker then be offered the queue: if the
  -- filters of both can be compared with the topic and all their subscribers have remote ends, the
  -- other one's scope includes the topic, and the queue before could be served to it, then it ends,
  -- and sends what it would have sent for the queue before, and after that, to each of its own
  -- subscriptions whose filter matches, the packet that it sends for such a publish of a client of
  -- its own.
  pub publish-Reaches :
      (a b : Broker p) (s : Slot p) (c : Connection) (opts : PublishOptions) (topic contents : Text)
      → All (IsReachable p peers topic) (p.by_topic a.subs)
      → All (IsReachable p peers topic) (p.by_topic b.subs)
      → All (IsServable p peers s (p.by_topic b.subs)) a.global_queue
      → s.id ≢ a.settings
      → includes s.settings.scope topic ≡ some true
      → ((a' : Broker p) × (handle_publish_v3 p peers c opts topic contents a ≡ done a')
          × Reaches s b a.global_queue a'.global_queue topic
              (λ r. publish_v3 topic contents (min_qos r.qos_value opts.qos)))
        × ((props : p.Props)
            → (a' : Broker p) × (handle_publish_v5 p peers c opts topic contents props a ≡ done a')
              × Reaches s b a.global_queue a'.global_queue topic
                  (packet_v5 p peers topic contents opts props))
  unfolding published
  publish-Reaches a b s c opts topic contents ra rb servable foreign included = (
    (let (a', e, forwarded) = handle_publish_v3-Forwarded p peers c opts topic contents a ra in
        (
          a',
          e,
          carried s b a.global_queue a'.global_queue a.settings _ _ forwarded.queue foreign included
              servable rb
              (λ r. (injected_packet-published p peers topic contents opts p.no_props r).0),
        )),
    λ props.
        let (a', e, forwarded) =
          handle_publish_v5-Forwarded p peers c opts topic contents props a ra in
        (
          a',
          e,
          carried s b a.global_queue a'.global_queue a.settings _ _ forwarded.queue foreign included
              servable rb (λ r. (injected_packet-published p peers topic contents opts props r).1),
        ),
  )

-- ===== src/Broker/Subscribing/Answered.antt =====
-- src/threads/mqtt/broker.cpp: what the subscribe handlers answer, and the subscriptions after
-- them.
use octopusmq_cpp.Base.{
  ℕ, ◌≡◌, refl, sym, subst, ◌∙◌, inl, inr, true, false, List, [], ◌∷◌, ◌++◌, append_assoc,
  append-nil, arith, if◌then◌else◌, Bool-cases, All, Text,
}
use octopusmq_cpp.Network.{receive}
use octopusmq_cpp.Scope.{valid_topic_filter}
use octopusmq_cpp.Scope.Tokens.{valid_topic_filter_iff}
use octopusmq_cpp.Platform.{Platform, Connection, Subscription}
use octopusmq_cpp.Broker.{
  SubackCode, granted, failure, topic_filter_invalid, suback_codes, Broker, note, subscribe,
}
use octopusmq_cpp.Broker.Handlers.{
  answer, handle_subscribe, subscribe_loop, handle_subscribe_v5, subscribe_loop_v5,
}
use octopusmq_cpp.Broker.Subscribing.{
  Entry, answers, is_subscribed, emplace-subscribed, emplace_keeps, emplace-All, Holds, Covers,
}

module _ (p : Platform) where
  -- The loop of both subscribe handlers.
  module _ (c : Connection) (make : Entry → Subscription) (bad : SubackCode) where
    abbrev enter : Entry → Broker p → Broker p
    enter e b = if valid_topic_filter e.0 then record b { subs = p.emplace (make e) b.subs } else b

    abbrev loop : List Entry → Broker p → List SubackCode → Broker p × List SubackCode
    loop [] b res = (b, res)
    loop (e ∷ es) b res =
        loop es (enter e b) (res ++ (if valid_topic_filter e.0 then granted e.1.qos else bad) ∷ [])

    loop-answers :
        (es : List Entry) (b : Broker p) (res : List SubackCode)
        → (loop es b res).1 ≡ res ++ answers bad es
    loop-answers [] b res = sym (append-nil res)
    loop-answers (e ∷ es) b res = loop-answers es _ _ ∙ append_assoc res _ (answers bad es)

    loop-sent :
        (es : List Entry) (b : Broker p) (res : List SubackCode) → (loop es b res).0.sent ≡ b.sent
    loop-sent [] b res = refl
    loop-sent (e ∷ es) b res = loop-sent es _ _ ∙ ground arith

    enter_keeps :
        (d : Connection) (f : Text) (e : Entry) (b : Broker p)
        → is_subscribed d f (p.by_topic b.subs) ≡ true
        → is_subscribed d f (p.by_topic (enter e b).subs) ≡ true
    enter_keeps d f e b h = elim (Bool-cases (valid_topic_filter e.0)) [
      | inl v ↦ rw v (emplace_keeps p d f (make e) b.subs h)
      | inr v ↦ rw v h
    ]

    loop_keeps :
        (d : Connection) (f : Text) (es : List Entry) (b : Broker p) (res : List SubackCode)
        → is_subscribed d f (p.by_topic b.subs) ≡ true
        → is_subscribed d f (p.by_topic (loop es b res).0.subs) ≡ true
    loop_keeps d f [] b res h = h
    loop_keeps d f (e ∷ es) b res h = loop_keeps d f es _ _ (enter_keeps d f e b h)

    loop-Holds :
        ((e : Entry) → ((make e).con ≡ c) × ((make e).topic_filter ≡ e.0))
        → (es : List Entry) (b : Broker p) (res : List SubackCode) → Holds p c es (loop es b res).0
    loop-Holds key [] b res = tt
    loop-Holds key (e ∷ es) b res = (
      λ v. loop_keeps c e.0 es _ _ (
          rw ((valid_topic_filter_iff e.0).1 v) (
            subst (λ d. is_subscribed d e.0 (p.by_topic (p.emplace (make e) b.subs)) ≡ true)
              (key e).0
              (subst
                (λ f. is_subscribed (make e).con f (p.by_topic (p.emplace (make e) b.subs)) ≡ true)
                (key e).1 (emplace-subscribed p (make e) b.subs)))),
      loop-Holds key es _ _,
    )

    loop-Covers :
        (es : List Entry) (b : Broker p) (res : List SubackCode)
        → Covers p make es b (loop es b res).0
    loop-Covers [] b res P h k = h
    loop-Covers (e ∷ es) b res P h k = loop-Covers es _ _ P (put (enter e b) refl) k.1
      where
        put : (b' : Broker p) → enter e b ≡ b' → All P (p.by_topic b'.subs)
        put b' same =
            subst (λ x. All P (p.by_topic x.subs)) same
              (elim (Bool-cases (valid_topic_filter e.0)) [
                | inl v ↦
                    rw v
                      (emplace-All p P (make e) b.subs h (k.0 ((valid_topic_filter_iff e.0).0 v)))
                | inr v ↦ rw v h
              ])

  abbrev pub plain : Connection → Entry → Subscription
  plain c e = record {
    topic_filter = e.0;
    con = c;
    qos_value = e.1.qos;
    retain_as_published = false;
    no_local = false;
  }

  abbrev pub with_options : Connection → Entry → Subscription
  with_options c e = record {
    topic_filter = e.0;
    con = c;
    qos_value = e.1.qos;
    retain_as_published = e.1.retain_as_published;
    no_local = e.1.no_local;
  }

  subscribe_loop-loop :
      (c : Connection) (es : List Entry) (b : Broker p) (res : List SubackCode)
      → subscribe_loop p c es b res ≡ loop c (plain c) failure es b res
  unfolding subscribe_loop
  subscribe_loop-loop c [] b res = refl
  subscribe_loop-loop c ((f, o) ∷ es) b res = subscribe_loop-loop c es _ _

  subscribe_loop_v5-loop :
      (c : Connection) (es : List Entry) (b : Broker p) (res : List SubackCode)
      → subscribe_loop_v5 p c es b res ≡ loop c (with_options c) topic_filter_invalid es b res
  unfolding subscribe_loop_v5
  subscribe_loop_v5-loop c [] b res = refl
  subscribe_loop_v5-loop c ((f, o) ∷ es) b res = subscribe_loop_v5-loop c es _ _

  -- A subscribe on a connection: its answer, and the subscriptions before and after.
  pub record Subscribes (c : Connection) (packet_id : ℕ) (make : Entry → Subscription)
      (bad : SubackCode) (es : List Entry) (b b' : Broker p) : Type 1 where
    pub sent : b'.sent ≡ b.sent ++ (c, suback_codes packet_id (answers bad es)) ∷ []
    pub holds : Holds p c es b'
    pub kept :
        (d : Connection) (f : Text)
        → is_subscribed d f (p.by_topic b.subs) ≡ true
        → is_subscribed d f (p.by_topic b'.subs) ≡ true
    pub covers : Covers p make es b b'

  answered :
      (c : Connection) (packet_id : ℕ) (make : Entry → Subscription) (bad : SubackCode)
      (es : List Entry) (b : Broker p)
      → ((e : Entry) → ((make e).con ≡ c) × ((make e).topic_filter ≡ e.0))
      → Subscribes c packet_id make bad es b
          (answer p c packet_id (loop c make bad es (note p c receive subscribe b) []))
  unfolding note
  answered c packet_id make bad es b key =
      let noted = note p c receive subscribe b in
      record {
        sent = rw (loop-sent c make bad es noted [], loop-answers c make bad es noted []);
        holds = loop-Holds c make bad key es noted [];
        kept = λ d f h. loop_keeps c make bad d f es noted [] h;
        covers = λ P h k. loop-Covers c make bad es noted [] P h k;
      }

  -- A subscribe, of either version, is answered by one packet, with one code for each entry in
  -- their order: the quality of service that was asked for, or the version's code of failure where
  -- the filter is not valid. Then the connection is subscribed to every valid filter of the packet;
  -- every older subscription is still there; and each one is an older one, or made of a valid entry
  -- with the options that the version keeps.
  pub handle_subscribe_lem :
      (c : Connection) (packet_id : ℕ) (es : List Entry) (b : Broker p)
      → Subscribes c packet_id (plain c) failure es b (handle_subscribe p c packet_id es b)
        × Subscribes c packet_id
            (with_options c)
            topic_filter_invalid
            es
            b
            (handle_subscribe_v5 p c packet_id es b)
  unfolding handle_subscribe handle_subscribe_v5
  handle_subscribe_lem c packet_id es b =
      let noted = note p c receive subscribe b in
      (
        rw (handle_subscribe, subscribe_loop-loop c es noted [])
            (answered c packet_id (plain c) failure es b (λ e. (refl, refl))),
        rw (handle_subscribe_v5, subscribe_loop_v5-loop c es noted [])
            (answered c packet_id (with_options c) topic_filter_invalid es b (λ e. (refl, refl))),
      )

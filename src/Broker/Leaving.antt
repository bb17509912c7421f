-- ===== src/Broker/Leaving.antt =====
-- src/threads/mqtt/broker.cpp: the unsubscribe handlers, and how a connection ends.
use octopusmq_cpp.Base.{
  ℕ, ◌≡◌, refl, sym, ap, ◌∙◌, ◌≢◌, Bool, true, false, ◌||◌, none, List, [], ◌∷◌, ◌++◌, arith,
  ==_refl, Text,
}
use octopusmq_cpp.Network.{receive}
use octopusmq_cpp.Platform.{Platform, Connection, Subscription, without, on_topic, on_connection}
use octopusmq_cpp.Broker.{unsuback_id, Broker, note, disconnect, close_connection}
use octopusmq_cpp.Broker.Handlers.{
  ErrorCode, erase_topics, handle_unsubscribe, handle_unsubscribe_v5, handle_close, handle_error,
  handle_disconnect, handle_disconnect_v5,
}

abbrev pub listed : List Text → Subscription → Bool
listed [] s = false
listed (t ∷ ts) s = on_topic t s || listed ts s

without-without :
    (a b : Subscription → Bool) (ss : List Subscription)
    → without b (without a ss) ≡ without (λ s. a s || b s) ss
without-without a b [] = refl
without-without a b (s ∷ ss) = ground (arith, without-without a b ss)

without_nothing : (ss : List Subscription) → without (λ s. false) ss ≡ ss
without_nothing [] = refl
without_nothing (s ∷ ss) = ap (λ x. s ∷ x) (without_nothing ss)

module _ (p : Platform) where
  erase_topics-without :
      (ts : List Text) (i : p.Index)
      → p.by_topic (erase_topics p ts i) ≡ without (listed ts) (p.by_topic i)
  unfolding erase_topics
  erase_topics-without [] i = sym (without_nothing (p.by_topic i))
  erase_topics-without (t ∷ ts) i =
      erase_topics-without ts (p.erase_topic t i)
      ∙ ap (without (listed ts)) (p.by_topic-erase_topic t i)
      ∙ without-without (on_topic t) (listed ts) (p.by_topic i)

  -- An unsubscribe, of either version, is acknowledged by one packet. It removes every
  -- subscription, of whatever connection, to a topic filter of the packet, and keeps all others in
  -- their order.
  pub handle_unsubscribe_lem :
      (c : Connection) (packet_id : ℕ) (ts : List Text) (b : Broker p)
      → let b' = handle_unsubscribe p c packet_id ts b in
        (p.by_topic b'.subs ≡ without (listed ts) (p.by_topic b.subs))
        × (b'.sent ≡ b.sent ++ (c, unsuback_id packet_id) ∷ [])
        × (handle_unsubscribe_v5 p c packet_id ts b ≡ b')
  unfolding handle_unsubscribe handle_unsubscribe_v5 note
  handle_unsubscribe_lem c packet_id ts b = (erase_topics-without ts b.subs, refl, refl)

  -- What a connection leaves behind: nothing of its own, and all of the others.
  pub record Left (c : Connection) (b b' : Broker p) : Type 0 where
    pub gone : b'.connections c ≡ false
    pub forgotten : b'.meta c ≡ none
    pub subs : p.by_topic b'.subs ≡ without (on_connection c) (p.by_topic b.subs)
    pub others :
        (d : Connection) → d ≢ c → (b'.connections d ≡ b.connections d) × (b'.meta d ≡ b.meta d)
    pub queue : b'.global_queue ≡ b.global_queue
    pub sent : b'.sent ≡ b.sent

  close-Left :
      (c : Connection) (b n : Broker p)
      → n.connections ≡ b.connections
      → ((d : Connection) → d ≢ c → n.meta d ≡ b.meta d)
      → n.subs ≡ b.subs
      → n.global_queue ≡ b.global_queue
      → n.sent ≡ b.sent
      → Left c b (close_connection p c n)
  unfolding close_connection
  close-Left c b n e m s q t = record {
    gone = rw (==_refl c);
    forgotten = rw (==_refl c);
    subs =
        p.by_topic-erase_connection c n.subs ∙ ap (λ i. without (on_connection c) (p.by_topic i)) s;
    others = λ d h. (ground (arith, ap (λ (f : Connection → Bool). f d) e), ground (arith, m d h));
    queue = q;
    sent = t;
  }

  -- After a close, a disconnect of either version, or an error on a connection that has logged in,
  -- the connection is out of the set and has neither metadata nor a subscription; those of others
  -- stay as they are, and nothing is sent or queued.
  pub leaving-Left :
      (c : Connection) (b : Broker p)
      → Left c b (handle_close p c b)
        × Left c b (handle_disconnect p c b)
        × Left c b (handle_disconnect_v5 p c b)
        × ((ec : ErrorCode) → b.connections c ≡ true → Left c b (handle_error p c ec b))
  unfolding handle_close handle_disconnect handle_disconnect_v5 handle_error note
  leaving-Left c b = (
    close-Left c b _ refl (λ d h. refl) refl refl refl,
    close-Left c b (note p c receive disconnect b) refl (λ d h. ground arith) refl refl refl,
    close-Left c b (note p c receive disconnect b) refl (λ d h. ground arith) refl refl refl,
    λ ec h. rw h (close-Left c b _ refl (λ d n. refl) refl refl refl),
  )

  -- An error on a connection that has not logged in changes nothing: its metadata stay.
  pub handle_error_early :
      (c : Connection) (ec : ErrorCode) (b : Broker p)
      → b.connections c ≡ false
      → handle_error p c ec b ≡ b
  unfolding handle_error
  handle_error_early c ec b h = rw (handle_error, h)

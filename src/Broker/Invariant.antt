-- ===== src/Broker/Invariant.antt =====
-- src/threads/mqtt/broker.cpp: what every handler keeps.
pub mod Sending
pub mod Sessions
use octopusmq_cpp.Base.{
  ℕ, ◌≡◌, refl, sym, ap, subst, ◌≢◌, inl, inr, Bool, true, false, ◌&&◌, Option, none, some, List,
  [], ◌∷◌, ◌++◌, arith, if◌then◌else◌, ◌==◌, ==_iff, Bool-cases, Option-cases, All, Text,
}
use octopusmq_cpp.Network.{Address, NetworkEvent, Version, v3, v5}
use octopusmq_cpp.Scope.{valid_topic_filter, matches_filter}
use octopusmq_cpp.Scope.Filters.{ValidFilter}
use octopusmq_cpp.Scope.Tokens.{valid_topic_filter_iff}
use octopusmq_cpp.Platform.{
  Platform, PublishOptions, Connection, Subscription, holds_key, without, on_topic, on_connection,
}
use octopusmq_cpp.Message.{Message}
use octopusmq_cpp.Broker.{
  Outcome, done, threw, fault, ◌>>=◌, each, Metadata, Packet, SubackCode, Broker, update, note,
  close_connection, share, init, transmit, Action,
}
use octopusmq_cpp.Broker.Keys.{
  IsUnique, without-IsUnique, Inserted-IsUnique, All-without, All-Inserted,
}
use octopusmq_cpp.Broker.Delivery.{
  log_sent, pass_on, if_matches, deliver_v3, deliver_v5, deliver_injected, handle_publish_v3,
  handle_publish_v5, inject_publish,
}
use octopusmq_cpp.Broker.Handlers.{
  ErrorCode, SubscribeOptions, accept, handle_close, handle_error, handle_pingreq,
  handle_connect_v3, handle_connect_v5, handle_disconnect, handle_disconnect_v5, handle_ack,
  handle_subscribe, handle_subscribe_v5, handle_unsubscribe, handle_unsubscribe_v5, subscribe_loop,
  subscribe_loop_v5, erase_topics,
}
use octopusmq_cpp.Broker.Events.{Event, handle, Reach}

-- The state that an outcome leaves, if any, has a property.
abbrev pub After {ℓ κ} : {S : Type ℓ} → (S → Type κ) → Outcome S → Type κ
After P (done s) = P s
After P (threw s) = P s
After P fault = Unit

pub >>=-After {ℓ} :
    {S : Type ℓ} (P : S → Type 0) (o : Outcome S) (g : S → Outcome S)
    → After P o
    → ((s : S) → P s → After P (g s))
    → After P (o >>= g)
>>=-After P (done s) g h k = k s h
>>=-After P (threw s) g h k = h
>>=-After P fault g h k = tt

pub each-After {ℓ κ} :
    {A : Type ℓ} {S : Type κ} (P : S → Type 0) (f : A → S → Outcome S)
    → ((x : A) (s : S) → P s → After P (f x s))
    → (xs : List A) (s : S) → P s
    → After P (each f xs s)
unfolding each
each-After P f keep [] s h = h
each-After P f keep (x ∷ xs) s h =
    >>=-After P (f x s) (each f xs) (keep x s h) (each-After P f keep xs)

abbrev Known : (Connection → Bool) → (Connection → Option Metadata) → Type 0
Known connections meta = (c : Connection) → connections c ≡ true → meta c ≢ none

pub Known-set :
    (connections : Connection → Bool) (meta : Connection → Option Metadata) (c : Connection)
    (m : Metadata)
    → Known connections meta
    → Known connections (update meta c (some m))
Known-set connections meta c m v k h e = ground (arith, v k h)

pub Known-connect :
    (connections : Connection → Bool) (meta : Connection → Option Metadata) (c : Connection)
    (m : Metadata)
    → Known connections meta
    → Known (update connections c true) (update meta c (some m))
Known-connect connections meta c m v k h e = ground (arith, v k)

Known-close :
    (connections : Connection → Bool) (meta : Connection → Option Metadata) (c : Connection)
    → Known connections meta
    → Known (update connections c false) (update meta c none)
Known-close connections meta c v k h e = ground (arith, v k)

-- Subscriptions are unique by connection and filter, their filters are valid, and every connection
-- that has logged in has metadata.
abbrev pub Subscribed : List Subscription → Type 0
Subscribed ss = IsUnique ss × All (λ s. ValidFilter s.topic_filter) ss

module _ (p : Platform) where
  pub record Inv (b : Broker p) : Type 0 where
    pub subscribed : Subscribed (p.by_topic b.subs)
    pub known : (c : Connection) → b.connections c ≡ true → b.meta c ≢ none

  pub erase_topic-Subscribed :
      (t : Text) (i : p.Index)
      → Subscribed (p.by_topic i)
      → Subscribed (p.by_topic (p.erase_topic t i))
  erase_topic-Subscribed t i h = rw (p.by_topic-erase_topic t i) (
    without-IsUnique (on_topic t) (p.by_topic i) h.0,
    All-without _ (on_topic t) (p.by_topic i) h.1,
  )

  erase_connection-Subscribed :
      (c : Connection) (i : p.Index)
      → Subscribed (p.by_topic i)
      → Subscribed (p.by_topic (p.erase_connection c i))
  erase_connection-Subscribed c i h = rw (p.by_topic-erase_connection c i) (
    without-IsUnique (on_connection c) (p.by_topic i) h.0,
    All-without _ (on_connection c) (p.by_topic i) h.1,
  )

  pub emplace-Subscribed :
      (s : Subscription) (i : p.Index)
      → ValidFilter s.topic_filter
      → Subscribed (p.by_topic i)
      → Subscribed (p.by_topic (p.emplace s i))
  emplace-Subscribed s i v h = elim (Bool-cases (holds_key s (p.by_topic i))) [
    | inl old ↦ rw (p.emplace_old s i old) h
    | inr new ↦
        let put = p.emplace_new s i new in
        (Inserted-IsUnique s _ _ put new h.0, All-Inserted _ s _ _ put v h.1)
  ]

  pub note-Inv :
      (c : Connection) (d : NetworkEvent) (a : Action) (b : Broker p) → Inv b → Inv (note p c d a b)
  unfolding note
  note-Inv c d a b v = record {
    subscribed = v.subscribed;
    known = Known-set b.connections b.meta c _ v.known;
  }

  pub close-Inv : (c : Connection) (b : Broker p) → Inv b → Inv (close_connection p c b)
  unfolding close_connection
  close-Inv c b v = record {
    subscribed = erase_connection-Subscribed c b.subs v.subscribed;
    known = Known-close b.connections b.meta c v.known;
  }

  -- Steps that touch neither field.
  pub same-Inv :
      (b c : Broker p)
      → b.connections ≡ c.connections
      → b.meta ≡ c.meta
      → p.by_topic b.subs ≡ p.by_topic c.subs
      → Inv b
      → Inv c
  same-Inv b c e m s v = record {
    subscribed = subst Subscribed s v.subscribed;
    known = subst (λ n. Known c.connections n) m (subst (λ n. Known n b.meta) e v.known);
  }

  pub with_subs-Inv :
      (b : Broker p) (i : p.Index) → Inv b → Subscribed (p.by_topic i) → Inv (record b { subs = i })
  with_subs-Inv b i v h = record { subscribed = h; known = v.known }

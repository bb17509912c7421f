-- ===== src/Broker/Subscribing.antt =====
-- src/threads/mqtt/broker.cpp: the subscribe handlers.
pub mod Answered
pub mod Again
use octopusmq_cpp.Base.{
  ℕ, ◌≡◌, refl, sym, ap, subst, ◌∙◌, inl, inr, Bool, true, false, ◌&&◌, ◌||◌, List, [], ◌∷◌, ◌++◌,
  append_assoc, append-nil, arith, if◌then◌else◌, ◌==◌, ==_refl, Bool-cases, All, Text, text_eq,
  text_eq_refl,
}
use octopusmq_cpp.Network.{receive}
use octopusmq_cpp.Scope.{valid_topic_filter}
use octopusmq_cpp.Scope.Filters.{ValidFilter}
use octopusmq_cpp.Scope.Tokens.{valid_topic_filter_iff}
use octopusmq_cpp.Platform.{Platform, Connection, Subscription, same_key, holds_key}
use octopusmq_cpp.Broker.{
  SubackCode, granted, failure, topic_filter_invalid, suback_codes, Broker, note, subscribe,
}
use octopusmq_cpp.Broker.Handlers.{
  SubscribeOptions, answer, handle_subscribe, subscribe_loop, handle_subscribe_v5,
  subscribe_loop_v5,
}

abbrev pub Entry : Type 0
Entry = Text × SubscribeOptions

-- The answer to one entry, with the code for an invalid filter.
abbrev pub answers : SubackCode → List Entry → List SubackCode
answers bad [] = []
answers bad ((f, o) ∷ es) = (if valid_topic_filter f then granted o.qos else bad) ∷ answers bad es

-- The key of a subscription; the options do not matter for it.
abbrev pub is_subscribed : Connection → Text → List Subscription → Bool
is_subscribed c f [] = false
is_subscribed c f (s ∷ ss) = (c == s.con && text_eq f s.topic_filter) || is_subscribed c f ss

pub is_subscribed-key :
    (s : Subscription) (ss : List Subscription)
    → holds_key s ss ≡ is_subscribed s.con s.topic_filter ss
is_subscribed-key s [] = refl
is_subscribed-key s (t ∷ ss) = ap (λ b. same_key s t || b) (is_subscribed-key s ss)

is_subscribed-middle :
    (c : Connection) (f : Text) (s : Subscription) (l r : List Subscription)
    → is_subscribed c f (l ++ s ∷ r)
      ≡ ((c == s.con && text_eq f s.topic_filter) || is_subscribed c f (l ++ r))
is_subscribed-middle c f s [] r = refl
is_subscribed-middle c f s (t ∷ l) r = ground (arith, is_subscribed-middle c f s l r)

All-middle :
    (P : Subscription → Type 0) (s : Subscription) (l r : List Subscription)
    → All P (l ++ r)
    → P s
    → All P (l ++ s ∷ r)
All-middle P s [] r h k = (k, h)
All-middle P s (t ∷ l) r h k = (h.0, All-middle P s l r h.1 k)

module _ (p : Platform) where
  -- Putting a subscription in keeps the others and adds its own key.
  pub emplace-subscribed :
      (s : Subscription) (i : p.Index)
      → is_subscribed s.con s.topic_filter (p.by_topic (p.emplace s i)) ≡ true
  emplace-subscribed s i = elim (Bool-cases (holds_key s (p.by_topic i))) [
    | inl old ↦ rw (p.emplace_old s i old) (sym (is_subscribed-key s (p.by_topic i)) ∙ old)
    | inr new ↦
        let (l, r, _, e) = p.emplace_new s i new in
        rw e (
          is_subscribed-middle s.con s.topic_filter s l r
          ∙ ground (arith, ==_refl s.con, text_eq_refl s.topic_filter))
  ]

  pub emplace_keeps :
      (c : Connection) (f : Text) (s : Subscription) (i : p.Index)
      → is_subscribed c f (p.by_topic i) ≡ true
      → is_subscribed c f (p.by_topic (p.emplace s i)) ≡ true
  emplace_keeps c f s i h = elim (Bool-cases (holds_key s (p.by_topic i))) [
    | inl old ↦ rw (p.emplace_old s i old) h
    | inr new ↦
        let (l, r, e, e') = p.emplace_new s i new in
        rw (e', is_subscribed-middle c f s l r) (ground (arith, ap (is_subscribed c f) e))
  ]

  -- A subscription that is put in is the only one that may be new.
  pub emplace-All :
      (P : Subscription → Type 0) (s : Subscription) (i : p.Index)
      → All P (p.by_topic i)
      → P s
      → All P (p.by_topic (p.emplace s i))
  emplace-All P s i h k = elim (Bool-cases (holds_key s (p.by_topic i))) [
    | inl old ↦ rw (p.emplace_old s i old) h
    | inr new ↦
        let (l, r, e, e') = p.emplace_new s i new in
        rw e' (All-middle P s l r (subst (All P) e h) k)
  ]

  -- What a subscribe handler has promised to the entries of its packet.
  abbrev pub Holds : Connection → List Entry → Broker p → Type 0
  Holds c es b = All (λ e. ValidFilter e.0 → is_subscribed c e.0 (p.by_topic b.subs) ≡ true) es

  -- What holds for the older subscriptions, and for those that the valid entries ask for, holds
  -- for all.
  abbrev pub Covers : (Entry → Subscription) → List Entry → Broker p → Broker p → Type 1
  Covers make es b b' =
      (P : Subscription → Type 0)
      → All P (p.by_topic b.subs)
      → All (λ e. ValidFilter e.0 → P (make e)) es
      → All P (p.by_topic b'.subs)

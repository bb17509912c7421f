-- ===== src/Broker/Table/Lookup.antt =====
-- The subscription with a key, in the container as it changes.
use octopusmq_cpp.Base.{
  ◌≡◌, refl, sym, ap, ◌∙◌, subst, inl, inr, Bool, true, false, ◌&&◌, none, some, List, [], ◌∷◌,
  ◌++◌, ◌==◌, ==_iff, Text, text_eq, text_eq_iff, Bool-cases, arith,
}
use mathlib.Core.Path.{fun_ext}
use octopusmq_cpp.Platform.{
  Platform, Connection, Subscription, holds_key, without, on_topic, on_connection,
}
use octopusmq_cpp.Broker.Subscribing.{is_subscribed, is_subscribed-key}
use octopusmq_cpp.Broker.Table.{lookup, enter, remove}

lookup-none :
    (ss : List Subscription) (c : Connection) (f : Text)
    → is_subscribed c f ss ≡ false
    → lookup ss c f ≡ none
lookup-none [] c f h = refl
lookup-none (s ∷ ss) c f h = ground (arith, lookup-none ss c f)

lookup-some :
    (ss : List Subscription) (c : Connection) (f : Text)
    → is_subscribed c f ss ≡ true
    → (s : Subscription) × (lookup ss c f ≡ some s)
lookup-some [] c f h = cc
lookup-some (s ∷ ss) c f h = elim (Bool-cases (c == s.con && text_eq f s.topic_filter)) [
  | inl e ↦ (s, rw e refl)
  | inr e ↦ rw e (lookup-some ss c f (ground (arith, h, e)))
]

abbrev has_key : Connection → Text → Subscription → Bool
has_key c f s = c == s.con && text_eq f s.topic_filter

same_connection : (c : Connection) (f : Text) (s : Subscription) → has_key c f s ≡ true → s.con ≡ c
same_connection c f s h = ground (arith, h, ==_iff c s.con)

same_filter :
    (c : Connection) (f : Text) (s : Subscription) → has_key c f s ≡ true → s.topic_filter ≡ f
same_filter c f s h = sym ((text_eq_iff f s.topic_filter).0 (ground (arith, h)))

-- The key that a subscription has, in place of another one that is equal.
at_key :
    (s : Subscription) (ss : List Subscription) (c : Connection) (f : Text) {b : Bool}
    → is_subscribed s.con s.topic_filter ss ≡ b
    → has_key c f s ≡ true
    → is_subscribed c f ss ≡ b
at_key s ss c f {b} h e =
    subst (λ d. is_subscribed d f ss ≡ b) (same_connection c f s e)
      (subst (λ g. is_subscribed s.con g ss ≡ b) (same_filter c f s e) h)

lookup-middle :
    (s : Subscription) (l r : List Subscription) (c : Connection) (f : Text)
    → is_subscribed s.con s.topic_filter (l ++ r) ≡ false
    → lookup (l ++ s ∷ r) c f ≡ enter s (lookup (l ++ r)) c f
lookup-middle s [] r c f h = elim (Bool-cases (has_key c f s)) [
  | inl e ↦ rw (e, lookup-none r c f (at_key s r c f h e)) refl
  | inr e ↦ rw e refl
]
lookup-middle s (t ∷ l) r c f h = elim (Bool-cases (has_key c f t)) [
  | inl e ↦ elim (Bool-cases (has_key c f s)) [ inl k ↦ rw (e, k) refl | inr k ↦ rw (e, k) refl ]
  | inr e ↦ rw e (lookup-middle s l r c f (ground (arith, h)))
]

lookup-without :
    (drop : Subscription → Bool) (by_key : Connection → Text → Bool)
    → ((s : Subscription) → drop s ≡ by_key s.con s.topic_filter)
    → (ss : List Subscription) (c : Connection) (f : Text)
    → lookup (without drop ss) c f ≡ remove by_key (lookup ss) c f
lookup-without drop by_key h [] c f = elim (Bool-cases (by_key c f)) [
  | inl d ↦ rw d refl
  | inr d ↦ rw d refl
]
lookup-without drop by_key h (s ∷ ss) c f =
    let rest = lookup-without drop by_key h ss c f in
    elim (Bool-cases (has_key c f s)) [
      | inl e ↦
          let key : drop s ≡ by_key c f =
            h s
            ∙ ap (λ d. by_key d s.topic_filter) (same_connection c f s e)
            ∙ ap (by_key c) (same_filter c f s e) in
          elim (Bool-cases (by_key c f)) [
            | inl d ↦ rw (key, d) (rest ∙ rw d refl)
            | inr d ↦ rw (key, d, e) refl
          ]
      | inr e ↦ elim (Bool-cases (drop s)) [ inl d ↦ rw (d, e) rest | inr d ↦ rw (d, e) rest ]
    ]

module _ (p : Platform) where
  pub lookup-emplace :
      (s : Subscription) (i : p.Index)
      → lookup (p.by_topic (p.emplace s i)) ≡ enter s (lookup (p.by_topic i))
  lookup-emplace s i = elim (Bool-cases (holds_key s (p.by_topic i))) [
    | inl old ↦ ap lookup (p.emplace_old s i old) ∙ fun_ext (λ c. fun_ext (λ f. entered c f old))
    | inr new ↦
        let (l, r, e, e') = p.emplace_new s i new in
        ap lookup e'
        ∙ fun_ext (λ c. fun_ext (λ f. lookup-middle s l r c f (
            subst (λ ss. is_subscribed s.con s.topic_filter ss ≡ false) e
              (sym (is_subscribed-key s (p.by_topic i)) ∙ new))))
        ∙ ap (λ ss. enter s (lookup ss)) (sym e)
  ]
    where
      entered :
          (c : Connection) (f : Text)
          → holds_key s (p.by_topic i) ≡ true
          → lookup (p.by_topic i) c f ≡ enter s (lookup (p.by_topic i)) c f
      entered c f old = elim (Bool-cases (has_key c f s)) [
        | inl e ↦
            let (t, found) =
              lookup-some (p.by_topic i) c f
                (at_key s (p.by_topic i) c f (sym (is_subscribed-key s (p.by_topic i)) ∙ old) e) in
            rw (e, found) refl
        | inr e ↦ rw e refl
      ]

  pub lookup-erase_topic :
      (t : Text) (i : p.Index)
      → lookup (p.by_topic (p.erase_topic t i))
        ≡ remove (λ c f. text_eq f t) (lookup (p.by_topic i))
  lookup-erase_topic t i =
      ap lookup (p.by_topic-erase_topic t i)
      ∙ fun_ext (λ c.
        fun_ext
          (λ f. lookup-without (on_topic t) (λ c f. text_eq f t) (λ s. refl) (p.by_topic i) c f))

  pub lookup-erase_connection :
      (c : Connection) (i : p.Index)
      → lookup (p.by_topic (p.erase_connection c i))
        ≡ remove (λ d f. d == c) (lookup (p.by_topic i))
  lookup-erase_connection c i =
      ap lookup (p.by_topic-erase_connection c i)
      ∙ fun_ext (λ d.
        fun_ext
          (λ f. lookup-without (on_connection c) (λ d f. d == c) (λ s. refl) (p.by_topic i) d f))

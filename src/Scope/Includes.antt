-- ===== src/Scope/Includes.antt =====
-- src/network/message.cpp, the constructors of `scope` and `scope::includes`.
use octopusmq_cpp.Base.{
  ◌≡◌, refl, sym, ap, ◌∙◌, subst, ◌⊎◌, ◌≢◌, ◌↔◌, inl, inr, Bool, true, false, Option, none, some,
  List, [], ◌∷◌, ◌++◌, arith, Bool-cases, Text, All, text_eq, eq_of_text_eq, text_eq_iff, is_empty,
}
use octopusmq_cpp.Error.{returns}
use octopusmq_cpp.Scope.{
  Scope, hash_sign, tokenize_topic_filter, compare_topics, from_string, from_list, collect,
  any_filter, includes,
}
use octopusmq_cpp.Scope.Split.{split}
use octopusmq_cpp.Scope.Filters.{ValidLevels, ValidFilter, ValidTopic}
use octopusmq_cpp.Scope.Tokens.{
  tokenize_topic_filter-valid, tokenize_topic_filter-nonempty_iff, split-nonempty,
}
use octopusmq_cpp.Scope.Topics.{
  tokenize_topic-valid, tokenize_topic-invalid, tokenize_topic-nonempty_iff,
}
use octopusmq_cpp.Scope.Matching.{Matches, Overruns}
use octopusmq_cpp.Scope.Verdict.{Verdict, TopicLevels, compare_topics-Verdict}
use octopusmq_cpp.Scope.Answers.{split-TopicLevels}

abbrev pub Any {ℓ} : {A : Type ℓ} → (A → Type 0) → List A → Type 0
Any P [] = ⊥
Any P (x ∷ xs) = P x ⊎ Any P xs

-- Every stored filter has the levels of a valid one.
abbrev pub IsValid : Scope → Type 0
IsValid s = All ValidLevels s.filters

-- What a list of filters builds: the filters before the first `#`, cut into levels.
abbrev pub Built : List Text → List (List Text) → Scope → Type 0
Built [] done s = (s.is_global_wildcard ≡ false) × (s.filters ≡ done)
Built (f ∷ fs) done s =
    ((f ≡ hash_sign) × (s.is_global_wildcard ≡ true) × (s.filters ≡ done))
    ⊎ ((f ≢ hash_sign) × ValidFilter f × Built fs (done ++ split f ∷ []) s)

collect-Built :
    (fs : List Text) (done : List (List Text)) (s : Scope)
    → collect fs done ≡ returns s
    → Built fs done s
unfolding collect
collect-Built [] done s h = (ground arith, ground arith)
collect-Built (f ∷ fs) done s h = elim (Bool-cases (text_eq f hash_sign)) [
  | inl e ↦ inl (eq_of_text_eq f _ e, ground arith, ground arith)
  | inr e ↦ elim (Bool-cases (is_empty (tokenize_topic_filter f))) [
    | inl bad ↦ absurd (ground arith)
    | inr good ↦
        let v = (tokenize_topic_filter-nonempty_iff f).0 good in
        let tokens = tokenize_topic_filter-valid f v in
        inr (
          (λ p. ground (arith, text_eq_iff f hash_sign)),
          v,
          collect-Built fs _ s
              (subst (λ ts. collect fs (done ++ ts ∷ []) ≡ returns s) tokens (ground arith)),
        )
  ]
]

Built-collect :
    (fs : List Text) (done : List (List Text)) (s : Scope)
    → Built fs done s
    → collect fs done ≡ returns s
unfolding collect
Built-collect [] done s h =
    ap returns (λ i. record { filters = sym h.1 i; is_global_wildcard = sym h.0 i })
Built-collect (f ∷ fs) done s (inl (e, g, d)) =
    rw (collect, (text_eq_iff f hash_sign).1 e)
      (ap returns (λ i. record { filters = sym d i; is_global_wildcard = sym g i }))
Built-collect (f ∷ fs) done s (inr (n, v, b)) =
    let other : text_eq f hash_sign ≡ false = ground (arith, text_eq_iff f hash_sign) in
    rw (collect, other, (tokenize_topic_filter-nonempty_iff f).1 v, tokenize_topic_filter-valid f v)
      (Built-collect fs _ s b)

-- The constructor from a list succeeds with a scope exactly if every filter before the first `#` is
-- valid, and then the scope holds the levels of these filters, and is global if there is a `#`.
pub from_list_iff : (fs : List Text) (s : Scope) → (from_list fs ≡ returns s) ↔ Built fs [] s
unfolding from_list
from_list_iff fs s = (collect-Built fs [] s, Built-collect fs [] s)

All-snoc {ℓ κ} :
    {A : Type ℓ} (P : A → Type κ) (xs : List A) (x : A) → All P xs → P x → All P (xs ++ x ∷ [])
All-snoc P [] x h p = (p, tt)
All-snoc P (y ∷ ys) x h p = (h.0, All-snoc P ys x h.1 p)

Built-IsValid :
    (fs : List Text) (done : List (List Text)) (s : Scope)
    → All ValidLevels done
    → Built fs done s
    → IsValid s
Built-IsValid [] done s h b = subst (All ValidLevels) (sym b.1) h
Built-IsValid (f ∷ fs) done s h (inl (_, _, e)) = subst (All ValidLevels) (sym e) h
Built-IsValid (f ∷ fs) done s h (inr (_, v, b)) =
    Built-IsValid fs _ s (All-snoc ValidLevels done _ h v.1) b

pub from_list-IsValid : (fs : List Text) (s : Scope) → from_list fs ≡ returns s → IsValid s
from_list-IsValid fs s h = Built-IsValid fs [] s tt ((from_list_iff fs s).0 h)

pub from_string-eq-from_list : (f : Text) → from_string f ≡ from_list (f ∷ [])
unfolding from_string from_list collect
from_string-eq-from_list f = refl

module _ (ts : List Text) (p : TopicLevels ts) (n : ts ≢ []) where
  any_filter-cons :
      (f : List Text) (fs : List (List Text)) (o : Option Bool)
      → Verdict f ts o
      → ¬ Overruns f ts
      → compare_topics f ts ≡ o
      → ((any_filter (f ∷ fs) ts ≡ some true) × Matches f ts)
        ⊎ ((any_filter (f ∷ fs) ts ≡ any_filter fs ts) × ¬ Matches f ts)
  unfolding any_filter
  any_filter-cons f fs none w safe e = absurd (safe w)
  any_filter-cons f fs (some true) w safe e = inl (rw (any_filter, e), w)
  any_filter-cons f fs (some false) w safe e = inr (rw (any_filter, e), w.0)

  any_filter_decides :
      (fs : List (List Text))
      → All ValidLevels fs
      → All (λ f. ¬ Overruns f ts) fs
      → (any_filter fs ts ≢ none) × ((any_filter fs ts ≡ some true) ↔ Any (λ f. Matches f ts) fs)
  unfolding any_filter
  any_filter_decides [] v safe = (λ e. cc, (λ e. absurd (cc), λ a. absurd a))
  any_filter_decides (f ∷ fs) v safe =
      let (total, equal) = any_filter_decides fs v.1 safe.1 in
      elim (any_filter-cons f fs (compare_topics f ts) (compare_topics-Verdict f ts v.0 p n) safe.0
        refl) [
          | inl (e, m) ↦ (λ h. cc, (λ h. inl m, λ h. e))
          | inr (e, m) ↦ (
            λ h. total (cc),
            (λ h. inr (equal.0 (cc)), λ h. elim h [ inl x ↦ absurd (m x) | inr x ↦ e ∙ equal.1 x ]),
          )
        ]

-- For a scope with valid filters and a topic name that no filter of it ends before, `includes`
-- answers, and it answers true exactly if the scope is global or the levels of one of its filters
-- match those of the topic.
pub includes_iff :
    (s : Scope) (topic : Text)
    → IsValid s
    → ValidTopic topic
    → All (λ f. ¬ Overruns f (split topic)) s.filters
    → (includes s topic ≢ none)
      × ((includes s topic ≡ some true)
          ↔ ((s.is_global_wildcard ≡ true) ⊎ Any (λ f. Matches f (split topic)) s.filters))
unfolding includes
includes_iff s topic v w safe = elim (Bool-cases s.is_global_wildcard) [
  | inl g ↦ rw (includes, g) (λ e. cc, (λ e. inl refl, λ e. refl))
  | inr g ↦
      let (total, equal) =
        any_filter_decides (split topic) (split-TopicLevels topic w.1) (split-nonempty topic)
          s.filters v safe in
      rw (includes, g, (tokenize_topic-nonempty_iff topic).1 w, tokenize_topic-valid topic w)
        (total, (λ e. inr (equal.0 e), λ e. elim e [ inl x ↦ absurd (cc) | inr x ↦ equal.1 x ]))
]

-- A text that is no topic name is included by a global scope alone.
pub includes-invalid_topic :
    (s : Scope) (topic : Text) → ¬ ValidTopic topic → includes s topic ≡ some s.is_global_wildcard
unfolding includes
includes-invalid_topic s topic n = ground (arith, ap is_empty (tokenize_topic-invalid topic n))

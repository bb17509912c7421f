-- ===== src/Scope/Answers.antt =====
-- src/network/message.cpp, `scope::matches_filter`: its answer for texts.
use octopusmq_cpp.Base.{
  ℕ, ◌≡◌, refl, ap, subst, ◌≢◌, ◌↔◌, inl, inr, Bool, true, false, Option, none, some, List, [], ◌∷◌,
  arith, ◌==◌, Bool-cases, Text, text_eq, eq_of_text_eq, is_empty,
}
use octopusmq_cpp.Scope.{hash_sign, matches_filter}
use octopusmq_cpp.Scope.Split.{split, onto_first}
use octopusmq_cpp.Scope.Filters.{IsPlain, ValidFilter, ValidTopic}
use octopusmq_cpp.Scope.Tokens.{
  tokenize_topic_filter-valid, tokenize_topic_filter-nonempty_iff, split-nonempty,
}
use octopusmq_cpp.Scope.Topics.{
  tokenize_topic-valid, tokenize_topic-invalid, tokenize_topic-nonempty_iff,
}
use octopusmq_cpp.Scope.Matching.{Matches, Overruns}
use octopusmq_cpp.Scope.Verdict.{
  Verdict, TopicLevels, Rest, valid-Rest, fit-ne-hash, Rest-tail, Matches-tail, Overruns-tail,
  Overruns-head, compare_topics-Verdict,
}

onto_first-TopicLevels :
    (c : ℕ) (ts : List Text)
    → (c ≢ b'#') × (c ≢ b'+')
    → TopicLevels ts
    → TopicLevels (onto_first c ts)
onto_first-TopicLevels c [] p h = ((p, tt), tt)
onto_first-TopicLevels c (t ∷ ts) p h = ((p, h.0), h.1)

-- The levels of a text without wildcards hold none.
pub split-TopicLevels : (s : Text) → IsPlain s → TopicLevels (split s)
unfolding split
split-TopicLevels [] p = (tt, tt)
split-TopicLevels (c ∷ s) p = elim (Bool-cases (c == b'/')) [
  | inl e ↦ rw (split, e) (tt, split-TopicLevels s p.1)
  | inr e ↦ rw (split, e) (onto_first-TopicLevels c (split s) p.0 (split-TopicLevels s p.1))
]

-- No valid filter both matches a topic and ends before it.
pub not-both : (fs ts : List Text) → Rest fs → TopicLevels ts → Matches fs ts → Overruns fs ts → ⊥
not-both [] [] r p m o = elim o [ ]
not-both [] (t ∷ ts) r p m o = elim m [ ]
not-both (f ∷ fs) [] r p m o = elim m [ ]
not-both (f ∷ fs) (t ∷ ts) r p m o =
    let n = fit-ne-hash f t p.0 (Overruns-head o) in
    not-both fs ts (Rest-tail f fs n r) p.1 (Matches-tail n m) (Overruns-tail o)

-- A verdict, read from the answer and from the relation.
module _ (fs ts : List Text) (r : Rest fs) (p : TopicLevels ts) where
  true_of : (o : Option Bool) → Verdict fs ts o → Matches fs ts → o ≡ some true
  true_of none v m = absurd (not-both fs ts r p m v)
  true_of (some true) v m = refl
  true_of (some false) v m = absurd (v.0 m)

  none_of : (o : Option Bool) → Verdict fs ts o → Overruns fs ts → o ≡ none
  none_of none v m = refl
  none_of (some true) v m = absurd (not-both fs ts r p v m)
  none_of (some false) v m = absurd (v.1 m)

  pub Verdict-true_iff : (o : Option Bool) → Verdict fs ts o → (o ≡ some true) ↔ Matches fs ts
  Verdict-true_iff o v = (λ e. subst (Verdict fs ts) e v, true_of o v)

  pub Verdict-none_iff : (o : Option Bool) → Verdict fs ts o → (o ≡ none) ↔ Overruns fs ts
  Verdict-none_iff o v = (λ e. subst (Verdict fs ts) e v, none_of o v)

hash-Matches : (ts : List Text) → ts ≢ [] → Matches (split hash_sign) ts
unfolding split
hash-Matches [] n = absurd (n refl)
hash-Matches (t ∷ ts) n = Matches.multi refl

matches_filter-Verdict :
    (filter topic : Text)
    → ValidFilter filter
    → ValidTopic topic
    → Verdict (split filter) (split topic) (matches_filter filter topic)
unfolding matches_filter
matches_filter-Verdict filter topic v w = elim (Bool-cases (text_eq filter hash_sign)) [
  | inl e ↦
      rw (matches_filter, e)
        (rw (eq_of_text_eq filter _ e) (hash-Matches (split topic) (split-nonempty topic)))
  | inr e ↦
      rw
        (
          matches_filter,
          e,
          (tokenize_topic_filter-nonempty_iff filter).1 v,
          (tokenize_topic-nonempty_iff topic).1 w,
          tokenize_topic_filter-valid filter v,
          tokenize_topic-valid topic w,
        )
        (compare_topics-Verdict (split filter) (split topic) v.1 (split-TopicLevels topic w.1)
          (split-nonempty topic))
]

-- For a valid filter and a topic name, `matches_filter` answers true exactly if the levels of the
-- filter match those of the topic: `+` stands for one level, a final `#` for one or more.
pub matches_filter-true_iff :
    (filter topic : Text)
    → ValidFilter filter
    → ValidTopic topic
    → (matches_filter filter topic ≡ some true) ↔ Matches (split filter) (split topic)
matches_filter-true_iff filter topic v w =
    Verdict-true_iff (split filter) (split topic) (valid-Rest _ v.1) (split-TopicLevels topic w.1) _
      (matches_filter-Verdict filter topic v w)

-- For a valid filter and a topic name, `matches_filter` reads past the end of the filter's tokens
-- exactly if the whole filter matches a proper beginning of the topic's levels.
pub matches_filter-faults_iff :
    (filter topic : Text)
    → ValidFilter filter
    → ValidTopic topic
    → (matches_filter filter topic ≡ none) ↔ Overruns (split filter) (split topic)
matches_filter-faults_iff filter topic v w =
    Verdict-none_iff (split filter) (split topic) (valid-Rest _ v.1) (split-TopicLevels topic w.1) _
      (matches_filter-Verdict filter topic v w)

-- A text that is no topic name is matched by `#` alone.
pub matches_filter-invalid_topic :
    (filter topic : Text)
    → ¬ ValidTopic topic
    → matches_filter filter topic ≡ some (text_eq filter hash_sign)
unfolding matches_filter
matches_filter-invalid_topic filter topic n =
    ground (arith, ap is_empty (tokenize_topic-invalid topic n))

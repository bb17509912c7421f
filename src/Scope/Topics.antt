-- ===== src/Scope/Topics.antt =====
-- src/network/message.cpp, `scope::tokenize_topic`: what is a topic, and what it is cut into.
use octopusmq_cpp.Base.{
  ◌≡◌, refl, ap, ◌↔◌, inl, inr, false, ◌||◌, [], ◌∷◌, Bool-cases, Text, is_empty,
}
use octopusmq_cpp.Scope.{has, tokenize_topic}
use octopusmq_cpp.Scope.Split.{split, topic_loop-eq-split}
use octopusmq_cpp.Scope.Filters.{ValidTopic, IsPlain-iff}
use octopusmq_cpp.Scope.Tokens.{split-not_empty}

-- A topic that is not empty and holds no wildcard is cut at every slash.
pub tokenize_topic-valid : (s : Text) → ValidTopic s → tokenize_topic s ≡ split s
unfolding tokenize_topic
tokenize_topic-valid [] v = absurd (v.0 refl)
tokenize_topic-valid (c ∷ s) v =
    rw (tokenize_topic, (IsPlain-iff (c ∷ s)).1 v.1, topic_loop-eq-split (c ∷ s))

pub tokenize_topic-invalid : (s : Text) → ¬ ValidTopic s → tokenize_topic s ≡ []
unfolding tokenize_topic
tokenize_topic-invalid [] v = refl
tokenize_topic-invalid (c ∷ s) v = elim (Bool-cases (has b'#' (c ∷ s) || has b'+' (c ∷ s))) [
  | inl bad ↦ rw (tokenize_topic, bad)
  | inr ok ↦ absurd (v (λ e. cc, (IsPlain-iff (c ∷ s)).0 ok))
]

pub dec_topic : (s : Text) → Dec (ValidTopic s)
dec_topic [] = no (λ v. v.0 refl)
dec_topic (c ∷ s) = elim (Bool-cases (has b'#' (c ∷ s) || has b'+' (c ∷ s))) [
  | inl bad ↦ no (λ v. let good = (IsPlain-iff (c ∷ s)).1 v.1 in absurd (cc))
  | inr ok ↦ yes (λ e. cc, (IsPlain-iff (c ∷ s)).0 ok)
]

pub tokenize_topic-nonempty_iff : (s : Text) → (is_empty (tokenize_topic s) ≡ false) ↔ ValidTopic s
tokenize_topic-nonempty_iff s = elim (dec_topic s) [
  | yes v ↦ (λ _. v, λ _. rw (tokenize_topic-valid s v) (split-not_empty s))
  | no v ↦ (λ h. let e = ap is_empty (tokenize_topic-invalid s v) in absurd (cc), λ w. absurd (v w))
]

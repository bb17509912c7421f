-- ===== src/Scope/Filters.antt =====
-- src/network/message.cpp, `scope::tokenize_topic_filter`, `valid_topic_filter` and
-- `tokenize_topic`: which texts are topic filters and topics.
use octopusmq_cpp.Base.{
  ℕ, ◌≡◌, refl, ◌⊎◌, ◌≢◌, ◌↔◌, inl, inr, false, ◌||◌, Option, none, some, List, [], ◌∷◌, arith,
  ◌==◌, Bool-cases, Text, All, text_eq, eq_of_text_eq, text_eq_iff,
}
use octopusmq_cpp.Scope.{hash_sign, plus_sign, find_first_of, later, has, misplaced}
use octopusmq_cpp.Scope.Split.{split}

-- A text without wildcards.
abbrev pub IsPlain : Text → Type 0
IsPlain t = All (λ c. (c ≢ b'#') × (c ≢ b'+')) t

-- One level of a filter: `+`, or no wildcard in it.
abbrev pub IsLevel : Text → Type 0
IsLevel t = (t ≡ plus_sign) ⊎ IsPlain t

-- The levels of a filter: `#` may stand for the last one.
abbrev pub ValidLevels : List Text → Type 0
ValidLevels [] = ⊥
ValidLevels (t ∷ []) = (t ≡ hash_sign) ⊎ IsLevel t
ValidLevels (t ∷ u ∷ ts) = IsLevel t × ValidLevels (u ∷ ts)

-- The rule of MQTT for topic filters, and for topic names.
abbrev pub ValidFilter : Text → Type 0
ValidFilter s = (s ≢ []) × ValidLevels (split s)

abbrev pub ValidTopic : Text → Type 0
ValidTopic s = (s ≢ []) × IsPlain s

has-later : (o : Option ℕ) → later o ≡ none → o ≡ none
has-later none h = refl
has-later (some k) h = cc

find_none : (c : ℕ) (s : Text) → find_first_of c s 0 ≡ none → All (λ x. x ≢ c) s
unfolding find_first_of
find_none c [] h = tt
find_none c (x ∷ s) h = elim (Bool-cases (x == c)) [
  | inl e ↦ absurd (ground arith)
  | inr e ↦ (λ p. ground arith, find_none c s (has-later _ (rw (find_first_of, e) at h)))
]

none_find : (c : ℕ) (s : Text) → All (λ x. x ≢ c) s → find_first_of c s 0 ≡ none
unfolding find_first_of
none_find c [] h = refl
none_find c (x ∷ s) h = ground (arith, none_find c s h.1)

pub not-has_iff : (c : ℕ) (s : Text) → (has c s ≡ false) ↔ All (λ x. x ≢ c) s
not-has_iff c s = (λ h. find_none c s (ground arith), λ h. rw (has, none_find c s h))

All-both {ℓ} :
    {A : Type ℓ} (P Q : A → Type 0) (xs : List A) → All P xs → All Q xs → All (λ x. P x × Q x) xs
All-both P Q [] p q = tt
All-both P Q (x ∷ xs) p q = ((p.0, q.0), All-both P Q xs p.1 q.1)

All-fst {ℓ} : {A : Type ℓ} (P Q : A → Type 0) (xs : List A) → All (λ x. P x × Q x) xs → All P xs
All-fst P Q [] h = tt
All-fst P Q (x ∷ xs) h = (h.0.0, All-fst P Q xs h.1)

All-snd {ℓ} : {A : Type ℓ} (P Q : A → Type 0) (xs : List A) → All (λ x. P x × Q x) xs → All Q xs
All-snd P Q [] h = tt
All-snd P Q (x ∷ xs) h = (h.0.1, All-snd P Q xs h.1)

pub IsPlain-iff : (s : Text) → ((has b'#' s || has b'+' s) ≡ false) ↔ IsPlain s
IsPlain-iff s = (
  λ h.
      All-both _ _ s ((not-has_iff b'#' s).0 (ground arith))
        ((not-has_iff b'+' s).0 (ground arith)),
  λ h.
      ground
        (arith, (not-has_iff b'#' s).1 (All-fst _ _ s h), (not-has_iff b'+' s).1 (All-snd _ _ s h)),
)

pub misplaced_iff : (t : Text) → (misplaced t ≡ false) ↔ ((t ≡ hash_sign) ⊎ IsLevel t)
unfolding misplaced
misplaced_iff t = (to, from)
  where
    to : misplaced t ≡ false → (t ≡ hash_sign) ⊎ IsLevel t
    to h = elim (Bool-cases (text_eq t hash_sign)) [
      | inl e ↦ inl (eq_of_text_eq t _ e)
      | inr e ↦ elim (Bool-cases (text_eq t plus_sign)) [
        | inl p ↦ inr (inl (eq_of_text_eq t _ p))
        | inr p ↦ inr (inr ((IsPlain-iff t).0 (ground arith)))
      ]
    ]

    from : (t ≡ hash_sign) ⊎ IsLevel t → misplaced t ≡ false
    from (inl e) = ground (arith, text_eq_iff t hash_sign)
    from (inr (inl e)) = ground (arith, text_eq_iff t plus_sign)
    from (inr (inr p)) = ground (arith, (IsPlain-iff t).1 p)

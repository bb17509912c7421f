-- ===== src/Scope/Tokens.antt =====
-- src/network/message.cpp, `scope::tokenize_topic_filter` and `valid_topic_filter`: what is a
-- filter, and what it is cut into.
use octopusmq_cpp.Base.{
  ℕ, zero, suc, ◌+◌, ◌≤◌, ◌<◌, ◌≡◌, refl, sym, ap, ◌∙◌, subst, ◌≢◌, ◌↔◌, inl, inr, Bool, true,
  false, not, ◌&&◌, ◌||◌, some, List, [], ◌∷◌, ◌++◌, append_assoc, arith, le→leb, ◌==◌, ==_refl,
  if◌then◌else◌, Bool-cases, Option-cases, length, drop, drop-drop, length-drop, Text, text_eq,
  eq_of_text_eq, text_eq_iff, is_empty, ||-true,
}
use octopusmq_cpp.Scope.{
  hash_sign, plus_sign, slash_sign, find_first_of, misplaced, filter_loop, tokenize_topic_filter,
  valid_topic_filter,
}
use octopusmq_cpp.Scope.Split.{
  split, find_first_of-drop, split-whole, split-at, last_token, next_token,
}
use octopusmq_cpp.Scope.Filters.{IsPlain, IsLevel, ValidLevels, ValidFilter, misplaced_iff}

-- The loop's tests, over a list of tokens.
abbrev pub levels_ok : List Text → Bool
levels_ok [] = true
levels_ok (t ∷ ts) =
    not (text_eq t hash_sign && not (is_empty ts)) && not (misplaced t) && levels_ok ts

abbrev pub checked : Bool → List Text → List Text
checked ok tokens = if ok then tokens else []

filter_loop-past :
    (fuel : ℕ) (s : Text) (tokens : List Text)
    → 0 < fuel
    → filter_loop fuel s (length s + 1) tokens ≡ some tokens
unfolding filter_loop
filter_loop-past zero s tokens h = absurd (omega arith)
filter_loop-past (suc fuel) s tokens h = ground arith

pub split-not_empty : (s : Text) → is_empty (split s) ≡ false
unfolding split
split-not_empty [] = refl
split-not_empty (c ∷ s) = grind (arith, split-not_empty s)

checked-cons :
    (a b ok : Bool) (tokens ts : List Text) (t : Text)
    → (if a then some [] else (if b then some [] else some (checked ok ((tokens ++ t ∷ []) ++ ts))))
      ≡ some (checked (not a && not b && ok) (tokens ++ t ∷ ts))
checked-cons true b ok tokens ts t = refl
checked-cons false true ok tokens ts t = refl
checked-cons false false false tokens ts t = refl
checked-cons false false true tokens ts t = ap some (append_assoc tokens (t ∷ []) ts)

checked-last :
    (a b : Bool) (tokens : List Text)
    → (if a then some [] else (if b then some [] else some tokens))
      ≡ some (checked (not a && not b && true) tokens)
checked-last true b tokens = refl
checked-last false true tokens = refl
checked-last false false tokens = refl

pub filter_loop-split :
    (fuel : ℕ) (s : Text) (first : ℕ) (tokens : List Text)
    → first ≤ length s
    → length s + 1 < fuel + first
    → filter_loop fuel s first tokens
      ≡ some (checked (levels_ok (split (drop first s))) (tokens ++ split (drop first s)))
unfolding filter_loop
filter_loop-split zero s first tokens h f = absurd (omega arith)
filter_loop-split (suc fuel) s first tokens h f =
    elim (Option-cases (find_first_of b'/' (drop first s) 0)) [
      | inl e ↦
          rw
            (
              filter_loop,
              le→leb first (length s) h,
              find_first_of-drop b'/' s first,
              e,
              last_token s first h,
              filter_loop-past fuel s _ (omega arith),
              split-whole _ e,
              ==_refl (length s),
            )
            (checked-last _ _ _)
      | inr (k, e) ↦
          let (within, cut) = split-at (drop first s) k e in
          let e_next : drop (first + k + 1) s ≡ drop (suc k) (drop first s) =
            ap (λ n. drop n s) (omega arith) ∙ sym (drop-drop (suc k) first s) in
          let inside : first + k + 1 ≤ length s = omega (arith, length-drop first s) in
          let e_size : (first + k == length s) ≡ false = ground arith in
          rw
            (
              filter_loop,
              le→leb first (length s) h,
              find_first_of-drop b'/' s first,
              e,
              next_token s first k,
              filter_loop-split fuel s (first + k + 1) _ inside (omega arith),
              e_size,
              cut,
              e_next,
              split-not_empty (drop (suc k) (drop first s)),
            )
            (checked-cons _ _ _ tokens _ _)
    ]

hash-ne-plus : hash_sign ≢ plus_sign
hash-ne-plus e = let same : text_eq hash_sign plus_sign ≡ true = (text_eq_iff _ _).1 e in cc

not-plain_hash : (t : Text) → t ≡ hash_sign → IsPlain t → ⊥
not-plain_hash [] e p = cc
not-plain_hash (c ∷ t) e p = p.0.0 (cc)

pub level-ne-hash : (t : Text) → IsLevel t → t ≢ hash_sign
level-ne-hash t (inl p) e = hash-ne-plus (sym e ∙ p)
level-ne-hash t (inr p) e = not-plain_hash t e p

levels_ok_sound : (ts : List Text) → ts ≢ [] → levels_ok ts ≡ true → ValidLevels ts
levels_ok_sound [] e h = absurd (e refl)
levels_ok_sound (t ∷ []) e h = (misplaced_iff t).0 (ground arith)
levels_ok_sound (t ∷ u ∷ ts) e h = (
  ground (arith, (misplaced_iff t).0, text_eq_iff t hash_sign),
  levels_ok_sound (u ∷ ts) (λ p. cc) (ground arith),
)

levels_ok_complete : (ts : List Text) → ValidLevels ts → levels_ok ts ≡ true
levels_ok_complete [] v = absurd v
levels_ok_complete (t ∷ []) v = ground (arith, (misplaced_iff t).1 v)
levels_ok_complete (t ∷ u ∷ ts) (level, v) =
    let here : misplaced t ≡ false = (misplaced_iff t).1 (inr level) in
    let other : t ≢ hash_sign = level-ne-hash t level in
    ground (arith, text_eq_iff t hash_sign, levels_ok_complete (u ∷ ts) v)

pub split-nonempty : (s : Text) → split s ≢ []
split-nonempty s e = let full = split-not_empty s in let empty = ap is_empty e in cc

abbrev Checked : Text → Type 0
Checked s = tokenize_topic_filter s ≡ checked (levels_ok (split s)) (split s)

hash-tokens : Checked hash_sign
unfolding tokenize_topic_filter split misplaced find_first_of
hash-tokens = refl

plus-tokens : Checked plus_sign
unfolding tokenize_topic_filter split misplaced find_first_of
plus-tokens = refl

sole : (s t : Text) → Checked t → s ≡ t → Checked s
sole s t h e = subst Checked (sym e) h

tokenize_topic_filter-checked :
    (s : Text) → s ≢ [] → tokenize_topic_filter s ≡ checked (levels_ok (split s)) (split s)
unfolding tokenize_topic_filter split
tokenize_topic_filter-checked [] h = absurd (h refl)
tokenize_topic_filter-checked (c ∷ s) h = elim (Bool-cases (text_eq (c ∷ s) hash_sign)) [
  | inl e ↦ sole (c ∷ s) hash_sign hash-tokens (eq_of_text_eq (c ∷ s) _ e)
  | inr e ↦ elim (Bool-cases (text_eq (c ∷ s) plus_sign)) [
    | inl p ↦ sole (c ∷ s) plus_sign plus-tokens (eq_of_text_eq (c ∷ s) _ p)
    | inr p ↦ rw (
      tokenize_topic_filter,
      e,
      p,
      filter_loop-split (length (c ∷ s) + 2) (c ∷ s) 0 [] (omega arith) (omega arith),
    )
  ]
]

-- A valid topic filter is cut into its levels.
pub tokenize_topic_filter-valid : (s : Text) → ValidFilter s → tokenize_topic_filter s ≡ split s
tokenize_topic_filter-valid s v =
    rw (tokenize_topic_filter-checked s v.0, levels_ok_complete (split s) v.1)

-- Any other text has no tokens.
pub tokenize_topic_filter-invalid : (s : Text) → ¬ ValidFilter s → tokenize_topic_filter s ≡ []
unfolding tokenize_topic_filter
tokenize_topic_filter-invalid [] v = refl
tokenize_topic_filter-invalid (c ∷ s) v = elim (Bool-cases (levels_ok (split (c ∷ s)))) [
  | inl ok ↦ absurd (v (λ e. cc, levels_ok_sound _ (split-nonempty (c ∷ s)) ok))
  | inr bad ↦ tokenize_topic_filter-checked (c ∷ s) (λ e. cc) ∙ rw bad
]

pub dec_filter : (s : Text) → Dec (ValidFilter s)
dec_filter [] = no (λ v. v.0 refl)
dec_filter (c ∷ s) = elim (Bool-cases (levels_ok (split (c ∷ s)))) [
  | inl ok ↦ yes (λ e. cc, levels_ok_sound _ (split-nonempty (c ∷ s)) ok)
  | inr bad ↦ no (λ v. let good = levels_ok_complete _ v.1 in cc)
]

pub tokenize_topic_filter-nonempty_iff :
    (s : Text) → (is_empty (tokenize_topic_filter s) ≡ false) ↔ ValidFilter s
tokenize_topic_filter-nonempty_iff s = elim (dec_filter s) [
  | yes v ↦ (λ _. v, λ _. rw (tokenize_topic_filter-valid s v) (split-not_empty s))
  | no v ↦ (
    λ h. let e = ap is_empty (tokenize_topic_filter-invalid s v) in absurd (cc),
    λ w. absurd (v w),
  )
]

slash-valid : ValidFilter slash_sign
unfolding split
slash-valid = (λ e. cc, (inr tt, inr (inr tt)))

hash-valid : ValidFilter hash_sign
unfolding split
hash-valid = (λ e. cc, inl refl)

plus-valid : ValidFilter plus_sign
unfolding split
plus-valid = (λ e. cc, inr (inl refl))

sign-valid :
    (s : Text)
    → (text_eq s hash_sign || text_eq s plus_sign || text_eq s slash_sign) ≡ true
    → ValidFilter s
sign-valid s h = elim (Bool-cases (text_eq s hash_sign)) [
  | inl e ↦ subst ValidFilter (sym (eq_of_text_eq s _ e)) hash-valid
  | inr e ↦ elim (Bool-cases (text_eq s plus_sign)) [
    | inl p ↦ subst ValidFilter (sym (eq_of_text_eq s _ p)) plus-valid
    | inr p ↦ subst ValidFilter (sym (eq_of_text_eq s _ (ground arith))) slash-valid
  ]
]

-- `valid_topic_filter` accepts a text exactly if it is not empty and each of its levels is `+`,
-- or free of wildcards, or a final `#`.
pub valid_topic_filter_iff : (s : Text) → (valid_topic_filter s ≡ true) ↔ ValidFilter s
unfolding valid_topic_filter
valid_topic_filter_iff s = (
  λ h. elim (||-true _ _ h) [
    | inl sign ↦ sign-valid s sign
    | inr tokens ↦ (tokenize_topic_filter-nonempty_iff s).0 (ground arith)
  ],
  λ v. ground (arith, (tokenize_topic_filter-nonempty_iff s).1 v),
)

-- ===== src/Scope/Verdict.antt =====
-- src/network/message.cpp, `scope::compare_topics`: its answer decides the matching rule, except
-- where the filter ends before the topic.
use octopusmq_cpp.Base.{
  ◌≤◌, ◌<◌, ◌≡◌, refl, sym, subst, ◌⊎◌, ◌≢◌, inl, inr, Bool, true, false, Option, none, some, List,
  [], ◌∷◌, arith, leb, Bool-cases, length, Text, All, text_eq, eq_of_text_eq, text_eq_iff, ||-true,
}
use octopusmq_cpp.Scope.{hash_sign, plus_sign, is_sole_hash, compare_topics}
use octopusmq_cpp.Scope.Filters.{IsPlain, IsLevel, ValidLevels}
use octopusmq_cpp.Scope.Tokens.{level-ne-hash}
use octopusmq_cpp.Scope.Matching.{
  Matches, Overruns, walk, fits, compare_topics-walk, compare_topics-short,
}

-- What each answer says of the levels; `none` is a read past the filter's end.
abbrev pub Verdict : List Text → List Text → Option Bool → Type 0
Verdict fs ts none = Overruns fs ts
Verdict fs ts (some true) = Matches fs ts
Verdict fs ts (some false) = ¬ Matches fs ts × ¬ Overruns fs ts

-- The levels of a topic name.
abbrev pub TopicLevels : List Text → Type 0
TopicLevels ts = All IsPlain ts

-- What is left of a valid filter: `#` only at the end.
abbrev pub Rest : List Text → Type 0
Rest [] = Unit
Rest (f ∷ fs) = ((f ≡ hash_sign) × (fs ≡ [])) ⊎ (IsLevel f × Rest fs)

pub valid-Rest : (fs : List Text) → ValidLevels fs → Rest fs
valid-Rest [] v = tt
valid-Rest (f ∷ []) (inl e) = inl (e, refl)
valid-Rest (f ∷ []) (inr l) = inr (l, tt)
valid-Rest (f ∷ g ∷ fs) v = inr (v.0, valid-Rest (g ∷ fs) v.1)

fits_sound : (f t : Text) → fits f t ≡ true → (f ≡ t) ⊎ (f ≡ plus_sign)
fits_sound f t h = elim (||-true _ _ h) [
  | inl e ↦ inl (eq_of_text_eq f t e)
  | inr e ↦ inr (eq_of_text_eq f plus_sign e)
]

fits_complete : (f t : Text) → (f ≡ t) ⊎ (f ≡ plus_sign) → fits f t ≡ true
fits_complete f t (inl e) = ground (arith, text_eq_iff f t)
fits_complete f t (inr e) = ground (arith, text_eq_iff f plus_sign)

pub fit-ne-hash : (f t : Text) → IsPlain t → (f ≡ t) ⊎ (f ≡ plus_sign) → f ≢ hash_sign
fit-ne-hash f t p (inl e) = level-ne-hash f (inr (subst IsPlain (sym e) p))
fit-ne-hash f t p (inr e) = level-ne-hash f (inl e)

pub Rest-tail : (f : Text) (fs : List Text) → f ≢ hash_sign → Rest (f ∷ fs) → Rest fs
Rest-tail f fs n (inl (e, _)) = absurd (n e)
Rest-tail f fs n (inr (_, r)) = r

Rest-hash : (f : Text) (fs : List Text) → f ≡ hash_sign → Rest (f ∷ fs) → fs ≡ []
Rest-hash f fs e (inl (_, n)) = n
Rest-hash f fs e (inr (l, _)) = absurd (level-ne-hash f l e)

pub Matches-tail :
    {f t : Text} {fs ts : List Text} → f ≢ hash_sign → Matches (f ∷ fs) (t ∷ ts) → Matches fs ts
Matches-tail n (Matches.multi e) = absurd (n e)
Matches-tail n (Matches.level _ m) = m

pub Overruns-tail : {f t : Text} {fs ts : List Text} → Overruns (f ∷ fs) (t ∷ ts) → Overruns fs ts
Overruns-tail (Overruns.level _ o) = o

Matches-head :
    {f t : Text} {fs ts : List Text}
    → f ≢ hash_sign
    → Matches (f ∷ fs) (t ∷ ts)
    → (f ≡ t) ⊎ (f ≡ plus_sign)
Matches-head n (Matches.multi e) = absurd (n e)
Matches-head n (Matches.level h m) = h

pub Overruns-head :
    {f t : Text} {fs ts : List Text} → Overruns (f ∷ fs) (t ∷ ts) → (f ≡ t) ⊎ (f ≡ plus_sign)
Overruns-head (Overruns.level h o) = h

module _ (f t : Text) (fs ts : List Text) where
  Verdict-level :
      (o : Option Bool)
      → f ≢ hash_sign
      → (f ≡ t) ⊎ (f ≡ plus_sign)
      → Verdict fs ts o
      → Verdict (f ∷ fs) (t ∷ ts) o
  Verdict-level none n h v = Overruns.level h v
  Verdict-level (some true) n h v = Matches.level h v
  Verdict-level (some false) n h v = (λ m. v.0 (Matches-tail n m), λ o. v.1 (Overruns-tail o))

  Verdict-stop :
      (h : Bool)
      → text_eq f hash_sign ≡ h
      → fits f t ≡ false
      → Rest (f ∷ fs)
      → Verdict (f ∷ fs) (t ∷ ts) (some h)
  Verdict-stop true e n r =
      let hash : f ≡ hash_sign = eq_of_text_eq f _ e in
      subst (λ gs. Matches (f ∷ gs) (t ∷ ts)) (sym (Rest-hash f fs hash r)) (Matches.multi hash)
  Verdict-stop false e n r =
      let other : f ≢ hash_sign = ground (arith, text_eq_iff f hash_sign) in
      let apart : (f ≡ t) ⊎ (f ≡ plus_sign) → ⊥ = λ h. let p = fits_complete f t h in cc in
      (λ m. apart (Matches-head other m), λ o. apart (Overruns-head o))

walk-Verdict :
    (fs ts : List Text)
    → length fs ≤ length ts
    → Rest fs
    → TopicLevels ts
    → Verdict fs ts (walk fs ts)
unfolding walk
walk-Verdict [] [] l r p = Matches.nil
walk-Verdict [] (t ∷ ts) l r p = Overruns.over
walk-Verdict (f ∷ fs) [] l r p = absurd (omega arith)
walk-Verdict (f ∷ fs) (t ∷ ts) l r p = elim (Bool-cases (fits f t)) [
  | inl fit ↦
      let h = fits_sound f t fit in
      let n = fit-ne-hash f t p.0 h in
      rw fit (
        Verdict-level f t fs ts (walk fs ts) n h
          (walk-Verdict fs ts (omega arith) (Rest-tail f fs n r) p.1))
  | inr other ↦ rw other (Verdict-stop f t fs ts (text_eq f hash_sign) refl other r)
]

Matches-length : {fs ts : List Text} → Matches fs ts → length fs ≤ length ts
Matches-length Matches.nil = omega arith
Matches-length (Matches.multi e) = omega arith
Matches-length (Matches.level h m) = omega (arith, Matches-length m)

Overruns-length : {fs ts : List Text} → Overruns fs ts → length fs ≤ length ts
Overruns-length Overruns.over = omega arith
Overruns-length (Overruns.level h m) = omega (arith, Overruns-length m)

sole-Verdict : (fs ts : List Text) → ts ≢ [] → is_sole_hash fs ≡ true → Matches fs ts
sole-Verdict [] ts n h = cc
sole-Verdict (f ∷ g ∷ fs) ts n h = cc
sole-Verdict (f ∷ []) [] n h = absurd (n refl)
sole-Verdict (f ∷ []) (t ∷ ts) n h = Matches.multi (eq_of_text_eq f _ h)

-- On the levels of a valid filter and of a topic name, `compare_topics` answers true exactly where
-- they match, and otherwise false, unless the filter is matched up by a proper beginning of the
-- topic: then it reads past the filter's end.
pub compare_topics-Verdict :
    (fs ts : List Text)
    → ValidLevels fs
    → TopicLevels ts
    → ts ≢ []
    → Verdict fs ts (compare_topics fs ts)
unfolding compare_topics
compare_topics-Verdict fs ts v p n = elim (Bool-cases (is_sole_hash fs)) [
  | inl sole ↦ rw (compare_topics, sole) (sole-Verdict fs ts n sole)
  | inr more ↦ elim (Bool-cases (leb (length fs) (length ts))) [
    | inl l ↦
        rw (compare_topics-walk fs ts more (ground arith))
          (walk-Verdict fs ts (ground arith) (valid-Rest fs v) p)
    | inr s ↦
        let short : length ts < length fs = ground arith in
        rw (compare_topics-short fs ts more short) (
          λ m. absurd (omega (arith, Matches-length m)),
          λ o. absurd (omega (arith, Overruns-length o)),
        )
  ]
]

-- ===== src/Scope/Matching.antt =====
-- src/network/message.cpp, `scope::compare_topics` against the matching rule of MQTT.
use octopusmq_cpp.Base.{
  ℕ, ◌+◌, ◌≤◌, ◌<◌, ◌≡◌, refl, ◌⊎◌, inl, inr, Bool, true, false, ◌||◌, Option, none, some, List, [],
  ◌∷◌, ◌++◌, append_assoc, arith, le→ltb, lt→ltb, if◌then◌else◌, Bool-cases, length, get_elem?,
  length-append, Text, text_eq,
}
use octopusmq_cpp.Scope.{hash_sign, plus_sign, fitting, ends_well, is_sole_hash, compare_topics}

-- The levels of a filter match those of a topic: `+` stands for one level, a final `#` for one or
-- more.
pub data Matches : List Text → List Text → Type 0 where
  nil : Matches [] []
  multi : {f t : Text} {ts : List Text} → f ≡ hash_sign → Matches (f ∷ []) (t ∷ ts)
  level :
      {f t : Text} {fs ts : List Text}
      → (f ≡ t) ⊎ (f ≡ plus_sign)
      → Matches fs ts
      → Matches (f ∷ fs) (t ∷ ts)

-- The whole filter matches a proper beginning of the topic.
pub data Overruns : List Text → List Text → Type 0 where
  over : {t : Text} {ts : List Text} → Overruns [] (t ∷ ts)
  level :
      {f t : Text} {fs ts : List Text}
      → (f ≡ t) ⊎ (f ≡ plus_sign)
      → Overruns fs ts
      → Overruns (f ∷ fs) (t ∷ ts)

abbrev pub fits : Text → Text → Bool
fits f t = text_eq f t || text_eq f plus_sign

-- The comparison by recursion on both lists.
unfoldable pub walk : List Text → List Text → Option Bool
walk [] [] = some true
walk [] (t ∷ ts) = none
walk (f ∷ fs) [] = some false
walk (f ∷ fs) (t ∷ ts) = if fits f t then walk fs ts else some (text_eq f hash_sign)

-- After `done`, which fitted, the loop and the last test compute `walk` on what is left.
get_elem?-past {ℓ} :
    {A : Type ℓ} (xs ys : List A) → get_elem? (xs ++ ys) (length xs) ≡ get_elem? ys 0
get_elem?-past [] ys = refl
get_elem?-past (x ∷ xs) ys = get_elem?-past xs ys

-- The last test, on what is left of both lists.
abbrev last_test : List Text → List Text → Option Bool
last_test fs [] = some true
last_test [] (t ∷ ts) = none
last_test (f ∷ fs) (t ∷ ts) = some (text_eq f hash_sign)

ends_well-at :
    (ds es fs ts : List Text)
    → length ds ≡ length es
    → ends_well (ds ++ fs) (es ++ ts) (length es) ≡ last_test fs ts
unfolding ends_well
ends_well-at ds es fs [] d =
    rw (ends_well, le→ltb (length es) (length (es ++ [])) (omega (arith, length-append es [])))
ends_well-at ds es [] (t ∷ ts) d = rw (
  ends_well,
  lt→ltb (length es) (length (es ++ t ∷ ts)) (omega (arith, length-append es (t ∷ ts))),
  ← d,
  get_elem?-past ds [],
)
ends_well-at ds es (f ∷ fs) (t ∷ ts) d = rw (
  ends_well,
  lt→ltb (length es) (length (es ++ t ∷ ts)) (omega (arith, length-append es (t ∷ ts))),
  ← d,
  get_elem?-past ds (f ∷ fs),
)

abbrev finish : List Text → List Text → Option ℕ → Option Bool
finish filter topic o = elim o [ none ↦ none | some i ↦ ends_well filter topic i ]

regroup : (xs : List Text) (y : Text) (ys : List Text) → (xs ++ y ∷ []) ++ ys ≡ xs ++ y ∷ ys
regroup xs y ys = append_assoc xs (y ∷ []) ys

finish-walk :
    (ds es fs ts : List Text)
    → length ds ≡ length es
    → length fs ≤ length ts
    → finish (ds ++ fs) (es ++ ts) (fitting fs (es ++ ts) (length es)) ≡ walk fs ts
unfolding fitting walk
finish-walk ds es [] [] d h = ends_well-at ds es [] [] d
finish-walk ds es [] (t ∷ ts) d h = ends_well-at ds es [] (t ∷ ts) d
finish-walk ds es (f ∷ fs) [] d h = absurd (omega arith)
finish-walk ds es (f ∷ fs) (t ∷ ts) d h = elim (Bool-cases (fits f t)) [
  | inl fit ↦
      let e : length (es ++ t ∷ []) ≡ length es + 1 = omega (arith, length-append es (t ∷ [])) in
      let e' : length (ds ++ f ∷ []) ≡ length ds + 1 = omega (arith, length-append ds (f ∷ [])) in
      let ih = finish-walk (ds ++ f ∷ []) (es ++ t ∷ []) fs ts (omega arith) (omega arith) in
      rw (fitting, get_elem?-past es (t ∷ ts), fit) (rw (regroup ds f fs, regroup es t ts, e) at ih)
  | inr other ↦
      rw (fitting, get_elem?-past es (t ∷ ts), other) (ends_well-at ds es (f ∷ fs) (t ∷ ts) d)
]

-- `compare_topics` computes `walk` between its two early returns.
pub compare_topics-walk :
    (fs ts : List Text)
    → is_sole_hash fs ≡ false
    → length fs ≤ length ts
    → compare_topics fs ts ≡ walk fs ts
unfolding compare_topics
compare_topics-walk fs ts h l =
    rw (compare_topics, h, le→ltb (length ts) (length fs) l) (finish-walk [] [] fs ts refl l)

pub compare_topics-short :
    (fs ts : List Text)
    → is_sole_hash fs ≡ false
    → length ts < length fs
    → compare_topics fs ts ≡ some false
unfolding compare_topics
compare_topics-short fs ts h l = rw (compare_topics, h, lt→ltb (length ts) (length fs) l)

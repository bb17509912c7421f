-- ===== src/Scope/Split.antt =====
-- The tokens of src/network/message.cpp described without indices: a text cut at every slash. The
-- loop over positions in `tokenize_topic` computes it.
use octopusmq_cpp.Base.{
  ℕ, zero, suc, ◌+◌, ◌-◌, ◌≤◌, ◌<◌, ◌≡◌, refl, sym, ap, ◌∙◌, inl, inr, false, Option, none, some,
  List, [], ◌∷◌, ◌++◌, append_assoc, arith, le→leb, ◌==◌, if◌then◌else◌, Bool-cases, Option-cases,
  length, take, drop, take_all, drop-drop, length-drop, Text,
}
use octopusmq_cpp.Scope.{find_first_of, later, substr, topic_loop}

abbrev pub onto_first : ℕ → List Text → List Text
onto_first c [] = (c ∷ []) ∷ []
onto_first c (t ∷ ts) = (c ∷ t) ∷ ts

unfoldable pub split : Text → List Text
split [] = [] ∷ []
split (c ∷ s) = if c == b'/' then [] ∷ split s else onto_first c (split s)

-- What `find_first_of` finds from a position on is what it finds in the rest.
abbrev shifted : ℕ → Option ℕ → Option ℕ
shifted n none = none
shifted n (some k) = some (n + k)

later-shifted : (n : ℕ) (o : Option ℕ) → later (shifted n o) ≡ shifted (suc n) o
later-shifted n none = refl
later-shifted n (some k) = ap some (omega arith)

shifted-zero : (o : Option ℕ) → o ≡ shifted 0 o
shifted-zero none = refl
shifted-zero (some k) = ap some (omega arith)

pub find_first_of-drop :
    (c : ℕ) (s : Text) (n : ℕ) → find_first_of c s n ≡ shifted n (find_first_of c (drop n s) 0)
unfolding find_first_of
find_first_of-drop c [] zero = refl
find_first_of-drop c [] (suc n) = refl
find_first_of-drop c (x ∷ s) zero = shifted-zero _
find_first_of-drop c (x ∷ s) (suc n) =
    ap later (find_first_of-drop c s n) ∙ later-shifted n (find_first_of c (drop n s) 0)

-- How a text is cut at the first slash.
abbrev pub Cut : Text → Option ℕ → Type 0
Cut s none = split s ≡ s ∷ []
Cut s (some k) = (k < length s) × (split s ≡ take k s ∷ split (drop (suc k) s))

Cut-cons : (c : ℕ) (s : Text) (o : Option ℕ) → (c == b'/') ≡ false → Cut s o → Cut (c ∷ s) (later o)
unfolding split
Cut-cons c s none h p = rw (split, h, p)
Cut-cons c s (some k) h p = (omega (arith, p.0), rw (split, h, p.1))

pub split-Cut : (s : Text) → Cut s (find_first_of b'/' s 0)
unfolding split find_first_of
split-Cut [] = refl
split-Cut (c ∷ s) = elim (Bool-cases (c == b'/')) [
  | inl h ↦ rw h (omega arith, rw (split, h))
  | inr h ↦ rw h (Cut-cons c s (find_first_of b'/' s 0) h (split-Cut s))
]

pub split-whole : (s : Text) → find_first_of b'/' s 0 ≡ none → split s ≡ s ∷ []
split-whole s e = rw e at (split-Cut s)

pub split-at :
    (s : Text) (k : ℕ)
    → find_first_of b'/' s 0 ≡ some k
    → (k < length s) × (split s ≡ take k s ∷ split (drop (suc k) s))
split-at s k e = rw e at (split-Cut s)

-- One token of the loop: the rest of the text, or what stands before the next slash.
pub last_token :
    (s : Text) (first : ℕ) → first ≤ length s → substr s first (length s - first) ≡ drop first s
last_token s first h = take_all _ (drop first s) (omega (arith, length-drop first s))

pub next_token :
    (s : Text) (first k : ℕ) → substr s first ((first + k) - first) ≡ take k (drop first s)
next_token s first k = ap (λ n. take n (drop first s)) (omega arith)

topic_loop-past :
    (fuel : ℕ) (s : Text) (tokens : List Text)
    → 0 < fuel
    → topic_loop fuel s (length s + 1) tokens ≡ some tokens
unfolding topic_loop
topic_loop-past zero s tokens h = absurd (omega arith)
topic_loop-past (suc fuel) s tokens h = ground arith

pub topic_loop-split :
    (fuel : ℕ) (s : Text) (first : ℕ) (tokens : List Text)
    → first ≤ length s
    → length s + 1 < fuel + first
    → topic_loop fuel s first tokens ≡ some (tokens ++ split (drop first s))
unfolding topic_loop
topic_loop-split zero s first tokens h f = absurd (omega arith)
topic_loop-split (suc fuel) s first tokens h f =
    elim (Option-cases (find_first_of b'/' (drop first s) 0)) [
      | inl e ↦ rw (
        topic_loop,
        le→leb first (length s) h,
        find_first_of-drop b'/' s first,
        e,
        last_token s first h,
        topic_loop-past fuel s _ (omega arith),
        split-whole _ e,
      )
      | inr (k, e) ↦
          let (within, cut) = split-at (drop first s) k e in
          let e_next : drop (first + k + 1) s ≡ drop (suc k) (drop first s) =
            ap (λ n. drop n s) (omega arith) ∙ sym (drop-drop (suc k) first s) in
          let inside : first + k + 1 ≤ length s = omega (arith, length-drop first s) in
          rw
            (
              topic_loop,
              le→leb first (length s) h,
              find_first_of-drop b'/' s first,
              e,
              next_token s first k,
            )
            (topic_loop-split fuel s (first + k + 1) _ inside (omega arith)
              ∙ ap some (append_assoc tokens _ _ ∙ ap (λ ts. tokens ++ ts) (rw (cut, e_next))))
    ]

-- The loop of `tokenize_topic` ends within its fuel and cuts the topic at every slash.
pub topic_loop-eq-split : (s : Text) → topic_loop (length s + 2) s 0 [] ≡ some (split s)
topic_loop-eq-split s = topic_loop-split (length s + 2) s 0 [] (omega arith) (omega arith)

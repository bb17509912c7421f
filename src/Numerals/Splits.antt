-- ===== src/Numerals/Splits.antt =====
-- The decimal print of a number by that of its tenth.
use octopusmq_cpp.Base.{
  ℕ, zero, suc, ◌+◌, ◌*◌, ◌/◌, ◌%◌, ◌^◌, ◌≤◌, ◌<◌, ◌≡◌, refl, ap, ◌∙◌, inl, inr, false, Bool-cases,
  [], ◌∷◌, ◌++◌, append_assoc, arith, ltb, length, length-append, Text,
}
use native.Mathlib.Nat.{pow-succ'}
use octopusmq_cpp.Numerals.{decimal_loop, decimal}
use octopusmq_cpp.Numerals.Digits.{decimal-Prints, length-decimal}

abbrev pub last_digit : ℕ → ℕ
last_digit n = b'0' + n % 10

-- More fuel changes nothing.
decimal_loop_enough : (f g n : ℕ) → n < f → n < g → decimal_loop f n ≡ decimal_loop g n
unfolding decimal_loop
decimal_loop_enough zero g n h k = absurd (omega arith)
decimal_loop_enough (suc f) zero n h k = absurd (omega arith)
decimal_loop_enough (suc f) (suc g) n h k = elim (Bool-cases (ltb n 10)) [
  | inl small ↦ rw (decimal_loop, small) refl
  | inr big ↦
      rw (decimal_loop, big)
        (ap (λ t. t ++ last_digit n ∷ [])
          (decimal_loop_enough f g (n / 10) (ground arith) (ground arith)))
]

pub decimal_split : (n : ℕ) → 10 ≤ n → decimal n ≡ decimal (n / 10) ++ last_digit n ∷ []
unfolding decimal decimal_loop
decimal_split n h =
    let big : ltb n 10 ≡ false = ground arith in
    rw (decimal, decimal_loop, big)
      (ap (λ t. t ++ last_digit n ∷ [])
        (decimal_loop_enough n (suc (n / 10)) (n / 10) (omega arith) (omega arith)))

-- A number has more digits than the exponent of a power of ten that it reaches.
pub length-decimal_above : (k n : ℕ) → 10 ^ k ≤ n → suc k ≤ length (decimal n)
length-decimal_above zero n h = (decimal-Prints n).some_digit
length-decimal_above (suc k) n h =
    let power : 10 ^ suc k ≡ 10 * 10 ^ k = pow-succ' 10 k in
    let one : 1 ≤ 10 ^ k = pow-pos k in
    let rest = length-decimal_above k (n / 10) (omega (arith, power)) in
    rw (decimal_split n (omega (arith, power, one)))
      (omega (arith, rest, length-append (decimal (n / 10)) (last_digit n ∷ [])))
  where
    pow-pos : (k : ℕ) → 1 ≤ 10 ^ k
    pow-pos zero = omega arith
    pow-pos (suc k) = let ih = pow-pos k in omega (arith, pow-succ' 10 k, ih)

pub length-decimal_exact : (k n : ℕ) → 10 ^ k ≤ n → n < 10 ^ suc k → length (decimal n) ≡ suc k
length-decimal_exact k n h j = omega (arith, length-decimal_above k n h, length-decimal k n j)

-- The last three digits.
abbrev pub thousandths : ℕ → Text
thousandths n = last_digit (n / 100) ∷ last_digit (n / 10) ∷ last_digit n ∷ []

pub decimal_thousands : (n : ℕ) → 1000 ≤ n → decimal n ≡ decimal (n / 1000) ++ thousandths n
decimal_thousands n h =
    let e : n / 10 / 10 ≡ n / 100 = omega arith in
    let e' : n / 100 / 10 ≡ n / 1000 = omega arith in
    let t = decimal (n / 1000) in
    decimal_split n (omega arith)
    ∙ ap (λ s. s ++ last_digit n ∷ [])
        (decimal_split (n / 10) (omega arith)
          ∙ ap (λ m. decimal m ++ last_digit (n / 10) ∷ []) e
          ∙ ap (λ s. s ++ last_digit (n / 10) ∷ [])
              (decimal_split (n / 100) (omega arith)
                ∙ ap (λ m. decimal m ++ last_digit (n / 100) ∷ []) e'))
    ∙ append_assoc (t ++ last_digit (n / 100) ∷ []) (last_digit (n / 10) ∷ []) (last_digit n ∷ [])
    ∙ append_assoc t (last_digit (n / 100) ∷ []) (last_digit (n / 10) ∷ last_digit n ∷ [])

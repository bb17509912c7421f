-- ===== src/Numerals/Digits.antt =====
-- The decimal print of a number: its digits, its value and its length.
use octopusmq_cpp.Base.{
  ℕ, zero, suc, ◌+◌, ◌-◌, ◌*◌, ◌/◌, ◌%◌, ◌^◌, ◌≤◌, ◌<◌, ◌≡◌, refl, ap, ◌∙◌, inl, inr, [], ◌∷◌, ◌++◌,
  arith, ltb, Bool-cases, All, length, length-append, Text,
}
use native.Mathlib.Nat.{pow-succ'}
use octopusmq_cpp.Numerals.{decimal_loop, decimal, value}

abbrev pub IsDigit : ℕ → Type 0
IsDigit c = (b'0' ≤ c) × (c ≤ b'9')

value-append : (n : ℕ) (s t : Text) → value n (s ++ t) ≡ value (value n s) t
value-append n [] t = refl
value-append n (c ∷ s) t = value-append (n * 10 + (c - b'0')) s t

digits-append : (s t : Text) → All IsDigit s → All IsDigit t → All IsDigit (s ++ t)
digits-append [] t h k = k
digits-append (c ∷ s) t h k = (h.0, digits-append s t h.1 k)

-- The print of `n` with enough rounds.
pub record Prints (n : ℕ) (s : Text) : Type 0 where
  pub digits : All IsDigit s
  pub spells : value 0 s ≡ n
  pub some_digit : 1 ≤ length s

decimal_loop-Prints : (fuel n : ℕ) → n < fuel → Prints n (decimal_loop fuel n)
unfolding decimal_loop
decimal_loop-Prints zero n h = absurd (omega arith)
decimal_loop-Prints (suc fuel) n h = elim (Bool-cases (ltb n 10)) [
  | inl small ↦
      rw (decimal_loop, small)
        (record {
          digits = ((omega arith, ground arith), tt);
          spells = omega arith;
          some_digit = omega arith;
        })
  | inr big ↦
      let rest = decimal_loop-Prints fuel (n / 10) (ground arith) in
      let last = (b'0' + n % 10) ∷ [] in
      rw (decimal_loop, big)
        (record {
          digits =
              digits-append (decimal_loop fuel (n / 10)) last rest.digits
                ((omega arith, omega arith), tt);
          spells =
              value-append 0 (decimal_loop fuel (n / 10)) last
              ∙ ap (λ m. value m last) rest.spells
              ∙ omega arith;
          some_digit = omega (arith, length-append (decimal_loop fuel (n / 10)) last);
        })
]

pub decimal-Prints : (n : ℕ) → Prints n (decimal n)
unfolding decimal
decimal-Prints n = decimal_loop-Prints (suc n) n (omega arith)

length-decimal_loop : (k fuel n : ℕ) → n < 10 ^ suc k → length (decimal_loop fuel n) ≤ suc k
unfolding decimal_loop
length-decimal_loop k zero n h = omega arith
length-decimal_loop zero (suc fuel) n h = ground arith
length-decimal_loop (suc k) (suc fuel) n h =
    let power : 10 ^ suc (suc k) ≡ 10 * 10 ^ suc k = pow-succ' 10 (suc k) in
    let below : n / 10 < 10 ^ suc k = omega (arith, power) in
    ground (
      arith,
      length-append (decimal_loop fuel (n / 10)) ((b'0' + n % 10) ∷ []),
      length-decimal_loop k fuel (n / 10) below,
    )

-- A number below a power of ten has no more digits than its exponent.
pub length-decimal : (k n : ℕ) → n < 10 ^ suc k → length (decimal n) ≤ suc k
unfolding decimal
length-decimal k n h = length-decimal_loop k (suc n) n h

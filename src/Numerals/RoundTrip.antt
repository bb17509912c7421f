-- ===== src/Numerals/RoundTrip.antt =====
-- What `stoi` reads in digits.
use octopusmq_cpp.Base.{
  ℕ, ◌-◌, ◌^◌, ◌||◌, ◌==◌, codes, ◌≤◌, ◌<◌, ◌≡◌, refl, Bool, true, false, [], ◌∷◌, arith, ltb,
  if◌then◌else◌, All, Text,
}
use octopusmq_cpp.Error.{other, Result, returns, throws}
use octopusmq_cpp.Numerals.{is_space, SignedInt, leading_digits, in_range, stoi}
use octopusmq_cpp.Numerals.Digits.{IsDigit, Prints}

leading_digits-All : (s : Text) → All IsDigit s → leading_digits s ≡ s
leading_digits-All [] h = refl
leading_digits-All (c ∷ s) h = ground (arith, leading_digits-All s h.1)

in_range_fits :
    (negative : Bool) (s : Text) (n : ℕ)
    → Prints n s
    → n ≤ (if negative then 2 ^ 31 else 2 ^ 31 - 1)
    → in_range negative s ≡ returns (record { is_negative = negative; magnitude = n })
unfolding in_range
in_range_fits negative [] n h k = absurd (let some = h.some_digit in omega arith)
in_range_fits negative (c ∷ s) n h k = rw (in_range, h.spells) (fits negative k)
  where
    fits :
        (b : Bool)
        → n ≤ (if b then 2 ^ 31 else 2 ^ 31 - 1)
        → ◌≡◌ {A = Result SignedInt}
            (if false || ltb (if b then 2 ^ 31 else 2 ^ 31 - 1) n
              then throws (other (codes "stoi"))
              else returns (record { is_negative = b; magnitude = n }))
            (returns (record { is_negative = b; magnitude = n }))
    fits true k = ground arith
    fits false k = ground arith

pub stoi_digits :
    (s : Text) (n : ℕ)
    → Prints n s
    → n < 2 ^ 31
    → stoi s ≡ returns (record { is_negative = false; magnitude = n })
unfolding stoi
stoi_digits [] n h k = absurd (let some = h.some_digit in omega arith)
stoi_digits (c ∷ s) n h k =
    let no_space : is_space c ≡ false = ground arith in
    let no_minus : (c == b'-') ≡ false = ground arith in
    let no_plus : (c == b'+') ≡ false = ground arith in
    rw (no_space, stoi, no_minus, no_plus, leading_digits-All (c ∷ s) h.digits)
      (in_range_fits false (c ∷ s) n h (omega arith))

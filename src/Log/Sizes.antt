-- ===== src/Log/Sizes.antt =====
-- src/core/log.cpp, `log::size_to_string`.
pub mod Bounds
use octopusmq_cpp.Base.{
  ◌∷◌, ℕ, zero, suc, ◌+◌, ◌*◌, ◌/◌, ◌%◌, ◌^◌, ◌≤◌, ◌<◌, ◌≡◌, refl, ◌⊎◌, inl, inr, true, false,
  Bool-cases, ◌++◌, ltb, if◌then◌else◌, Text, codes, length, length-append, arith,
}
use native.Mathlib.Nat.{
  div-add-mod, mod-lt, mul-suc, mul-le-mul_left, pow-succ', lt_of_mul-lt-mul_left,
}
use octopusmq_cpp.Numerals.{decimal}
use octopusmq_cpp.Numerals.Digits.{length-decimal}

-- The quotient to the nearest number, and to the even one of two that are as near.
unfoldable pub round_even : ℕ → ℕ → ℕ
round_even n d =
    if ltb (2 * (n % d)) d
    then n / d
    else (if ltb d (2 * (n % d)) then n / d + 1 else n / d + (n / d) % 2)

-- The weight of the last of the 53 bits that a `double` has, for a number of 64 bits.
unfoldable pub last_bit : ℕ → ℕ → ℕ → ℕ
last_bit zero d n = d
last_bit (suc fuel) d n =
    let more = last_bit fuel (2 * d) n in if ltb n (2 ^ 53 * d) then d else more

-- `static_cast<double>(size)`.
unfoldable pub to_double : ℕ → ℕ
to_double n = last_bit 11 1 n * round_even n (last_bit 11 1 n)

-- One digit behind the point, by `std::fixed` and `std::setprecision(1)`.
abbrev pub print_tenths : ℕ → Text
print_tenths t = decimal (t / 10) ++ b'.' ∷ decimal (t % 10)

-- `static_cast<double>(size) / divisor`, which is exact for a power of two.
abbrev pub scaled : ℕ → ℕ → Text
scaled size divisor = print_tenths (round_even (10 * to_double size) divisor)

unfoldable pub size_to_string : ℕ → Text
size_to_string size =
    if ltb size 0x400
    then decimal size ++ codes " B"
    else (if ltb size 0x100000
        then scaled size 0x400 ++ codes " KB"
        else (if ltb size 0x40000000
            then scaled size 0x100000 ++ codes " MB"
            else scaled size 0x40000000 ++ codes " GB"))

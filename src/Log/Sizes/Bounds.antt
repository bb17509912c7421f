-- ===== src/Log/Sizes/Bounds.antt =====
-- src/core/log.cpp, `log::size_to_string`: how long the text is, and how near to the size.
use octopusmq_cpp.Base.{
  ◌∷◌, ℕ, suc, ◌+◌, ◌*◌, ◌/◌, ◌%◌, ◌^◌, ◌≤◌, ◌<◌, ◌≡◌, refl, ◌⊎◌, inl, inr, true, false, Bool-cases,
  ◌++◌, ltb, Text, codes, length, length-append, arith,
}
use native.Mathlib.Nat.{
  div-add-mod, mod-lt, mul-suc, mul-le-mul_left, pow-succ', lt_of_mul-lt-mul_left,
}
use octopusmq_cpp.Numerals.{decimal}
use octopusmq_cpp.Numerals.Digits.{length-decimal}
use octopusmq_cpp.Log.Sizes.{round_even, last_bit, to_double, print_tenths, scaled, size_to_string}

round_even_cases :
    (n d : ℕ)
    → ((round_even n d ≡ n / d) × (2 * (n % d) ≤ d))
      ⊎ ((round_even n d ≡ n / d + 1) × (d ≤ 2 * (n % d)))
unfolding round_even
round_even_cases n d = ground arith

round_even_near :
    (n d : ℕ)
    → 1 ≤ d
    → (2 * (d * round_even n d) ≤ 2 * n + d) × (2 * n ≤ 2 * (d * round_even n d) + d)
round_even_near n d h =
    let whole = div-add-mod n d in
    let small : n % d < d = mod-lt n h in
    let next = mul-suc d (n / d) in
    elim (round_even_cases n d) [
      | inl (e, low) ↦ rw e (omega (arith, whole, small), omega (arith, whole, small))
      | inr (e, high) ↦ rw e (omega (arith, whole, small, next), omega (arith, whole, small, next))
    ]

last_bit_one : (n : ℕ) → n < 2 ^ 53 → last_bit 11 1 n ≡ 1
unfolding last_bit
last_bit_one n h = let low : ltb n (2 ^ 53 * 1) ≡ true = ground arith in rw (last_bit, low) refl

to_double_exact : (n : ℕ) → n < 2 ^ 53 → to_double n ≡ n
unfolding to_double
to_double_exact n h =
    let near = round_even_near n 1 (omega arith) in
    rw (to_double, last_bit_one n h) (omega (arith, near))

-- `text` is the print of a number of tenths which is the nearest one to `size` in `unit`s, and not
-- below 1.0.
abbrev pub Nearest : (size unit : ℕ) → (suffix shown : Text) → Type 0
Nearest size unit suffix shown =
    (tenths : ℕ) × (shown ≡ print_tenths tenths ++ suffix)
    × (10 ≤ tenths)
    × (20 * size ≤ 2 * (unit * tenths) + unit)
    × (2 * (unit * tenths) ≤ 20 * size + unit)

scaled-Nearest :
    (size unit : ℕ) (suffix : Text)
    → size < 2 ^ 53
    → 1 ≤ unit
    → unit ≤ size
    → Nearest size unit suffix (scaled size unit ++ suffix)
scaled-Nearest size unit suffix small some above = rw (to_double_exact size small) (
    let near = round_even_near (10 * size) unit some in
    (
      round_even (10 * size) unit,
      refl,
      at_least (round_even (10 * size) unit) near.1,
      omega (arith, near),
      omega (arith, near),
    ))
  where
    -- Nine tenths of a unit would be too far from it.
    at_least : (t : ℕ) → 2 * (10 * size) ≤ 2 * (unit * t) + unit → 10 ≤ t
    at_least t h = elim (Bool-cases (ltb t 10)) [
      | inl few ↦
          let most : unit * t ≤ unit * 9 = mul-le-mul_left unit (ground arith) in
          absurd (omega (arith, most))
      | inr many ↦ ground arith
    ]

length-print_tenths : (k t : ℕ) → t < 10 ^ suc (suc k) → length (print_tenths t) ≤ suc k + 2
length-print_tenths k t h =
    let power : 10 ^ suc (suc k) ≡ 10 * 10 ^ suc k = pow-succ' 10 (suc k) in
    let whole = length-decimal k (t / 10) (omega (arith, power)) in
    let tenth = length-decimal 0 (t % 10) (omega arith) in
    let all : length (print_tenths t)
        ≡ length (decimal (t / 10)) + suc (length (decimal (t % 10))) =
      length-append (decimal (t / 10)) (b'.' ∷ decimal (t % 10)) in
    omega (arith, all, whole, tenth)

length-scaled :
    (k size unit : ℕ) (suffix : Text)
    → 1 ≤ unit
    → size < 2 ^ 53
    → 20 * size + unit < 2 * (unit * 10 ^ suc (suc k))
    → length suffix ≤ 3
    → length (scaled size unit ++ suffix) ≤ suc k + 5
length-scaled k size unit suffix some small low short =
    let near = round_even_near (10 * size) unit some in
    let t = round_even (10 * size) unit in
    let few : t < 10 ^ suc (suc k) = lt_of_mul-lt-mul_left unit (omega (arith, near)) in
    rw (to_double_exact size small)
      (omega (arith, length-append (print_tenths t) suffix, length-print_tenths k t few))

in_bytes : (size : ℕ) → size < 2 ^ 10 → size_to_string size ≡ decimal size ++ codes " B"
unfolding size_to_string
in_bytes size h = let b : ltb size 0x400 ≡ true = ground arith in rw (size_to_string, b) refl

in_kilobytes :
    (size : ℕ)
    → 2 ^ 10 ≤ size
    → size < 2 ^ 20
    → size_to_string size ≡ scaled size (2 ^ 10) ++ codes " KB"
unfolding size_to_string
in_kilobytes size h k =
    let b : ltb size 0x400 ≡ false = ground arith in
    let c : ltb size 0x100000 ≡ true = ground arith in rw (size_to_string, b, c) refl

in_megabytes :
    (size : ℕ)
    → 2 ^ 20 ≤ size
    → size < 2 ^ 30
    → size_to_string size ≡ scaled size (2 ^ 20) ++ codes " MB"
unfolding size_to_string
in_megabytes size h k =
    let b : ltb size 0x400 ≡ false = ground arith in
    let c : ltb size 0x100000 ≡ false = ground arith in
    let d : ltb size 0x40000000 ≡ true = ground arith in rw (size_to_string, b, c, d) refl

in_gigabytes :
    (size : ℕ) → 2 ^ 30 ≤ size → size_to_string size ≡ scaled size (2 ^ 30) ++ codes " GB"
unfolding size_to_string
in_gigabytes size h =
    let b : ltb size 0x400 ≡ false = ground arith in
    let c : ltb size 0x100000 ≡ false = ground arith in
    let d : ltb size 0x40000000 ≡ false = ground arith in rw (size_to_string, b, c, d) refl

length-size_to_string : (size : ℕ) → size < 2 ^ 53 → length (size_to_string size) ≤ 12
length-size_to_string size h = elim (Bool-cases (ltb size 0x400)) [
  | inl bytes ↦
      let few = length-decimal 3 size (ground arith) in
      rw (in_bytes size (ground arith))
        (omega (arith, few, length-append (decimal size) (codes " B")))
  | inr above ↦ elim (Bool-cases (ltb size 0x100000)) [
    | inl kilobytes ↦
        let few : size < 2 ^ 20 = ground arith in
        let fits =
          length-scaled 3 size (2 ^ 10) (codes " KB") (omega arith) h (omega arith) (omega arith) in
        rw (in_kilobytes size (ground arith) few) (omega (arith, fits))
    | inr more ↦ elim (Bool-cases (ltb size 0x40000000)) [
      | inl megabytes ↦
          let few : size < 2 ^ 30 = ground arith in
          let fits =
            length-scaled 3 size (2 ^ 20) (codes " MB") (omega arith) h (omega arith)
              (omega arith) in
          rw (in_megabytes size (ground arith) few) (omega (arith, fits))
      | inr most ↦
          let fits =
            length-scaled 6 size (2 ^ 30) (codes " GB") (omega arith) h (omega arith)
              (omega arith) in
          rw (in_gigabytes size (ground arith)) (omega (arith, fits))
    ]
  ]
]

-- Sizes below 2 ^ 53 are printed in at most 12 characters: those below 1024 as they are, and the
-- others by a number with one digit behind the point, in the largest unit that they reach, with an
-- error of at most half of its last digit.
pub size_to_string_lem :
    (size : ℕ)
    → size < 2 ^ 53
    → (length (size_to_string size) ≤ 12)
      × (size < 2 ^ 10 → size_to_string size ≡ decimal size ++ codes " B")
      × (2 ^ 10 ≤ size → size < 2 ^ 20 → Nearest size (2 ^ 10) (codes " KB") (size_to_string size))
      × (2 ^ 20 ≤ size → size < 2 ^ 30 → Nearest size (2 ^ 20) (codes " MB") (size_to_string size))
      × (2 ^ 30 ≤ size → Nearest size (2 ^ 30) (codes " GB") (size_to_string size))
size_to_string_lem size h = (
  length-size_to_string size h,
  in_bytes size,
  λ low high.
      rw (in_kilobytes size low high)
        (scaled-Nearest size (2 ^ 10) (codes " KB") h (omega arith) low),
  λ low high.
      rw (in_megabytes size low high)
        (scaled-Nearest size (2 ^ 20) (codes " MB") h (omega arith) low),
  λ low.
      rw (in_gigabytes size low) (scaled-Nearest size (2 ^ 30) (codes " GB") h (omega arith) low),
)

-- ===== src/Numerals.antt =====
-- `std::to_string`, `printf` with `%d`, and `std::stoi`, of which src/network makes use.
pub mod Digits
pub mod Splits
pub mod RoundTrip
use octopusmq_cpp.Base.{
  ℕ, zero, suc, ◌+◌, ◌-◌, ◌*◌, ◌/◌, ◌%◌, ◌^◌, Bool, true, false, ◌&&◌, ◌||◌, List, [], ◌∷◌, ◌++◌,
  ◌==◌, ltb, leb, if◌then◌else◌, Text, codes, is_empty,
}
use octopusmq_cpp.Error.{other, Result, returns, throws}

-- With a round for each digit.
decimal_loop : ℕ → ℕ → Text
decimal_loop zero n = []
decimal_loop (suc fuel) n =
    let rest = decimal_loop fuel (n / 10) in
    if ltb n 10 then (b'0' + n) ∷ [] else rest ++ (b'0' + n % 10) ∷ []

-- `std::to_string`.
unfoldable pub decimal : ℕ → Text
unfolding decimal_loop
decimal n = decimal_loop (suc n) n

-- An `int`: is it negative, and its absolute value.
pub record SignedInt : Type 0 where
  pub is_negative : Bool
  pub magnitude : ℕ

-- The value of an `int` as `uint32_t`, and back.
unfoldable pub to_uint32 : SignedInt → ℕ
to_uint32 n = if n.is_negative then (2 ^ 32 - n.magnitude) % 2 ^ 32 else n.magnitude

unfoldable pub of_uint32 : ℕ → SignedInt
of_uint32 n =
    if ltb n (2 ^ 31)
    then record { is_negative = false; magnitude = n }
    else record { is_negative = true; magnitude = 2 ^ 32 - n }

-- `%d`.
unfoldable pub print_int : SignedInt → Text
print_int n = if n.is_negative then b'-' ∷ decimal n.magnitude else decimal n.magnitude

abbrev pub is_digit : ℕ → Bool
is_digit c = leb b'0' c && leb c b'9'

-- `isspace`: a blank, or one of the codes from `\t` to `\r`.
abbrev pub is_space : ℕ → Bool
is_space c = c == b' ' || (leb 9 c && leb c 13)

abbrev pub skip_space : Text → Text
skip_space [] = []
skip_space (c ∷ s) = if is_space c then skip_space s else c ∷ s

abbrev pub leading_digits : Text → Text
leading_digits [] = []
leading_digits (c ∷ s) = if is_digit c then c ∷ leading_digits s else []

-- The number that digits spell behind `n`.
abbrev pub value : ℕ → Text → ℕ
value n [] = n
value n (c ∷ s) = value (n * 10 + (c - b'0')) s

-- `std::invalid_argument` and `std::out_of_range`, which are no `std::runtime_error`.
in_range : Bool → Text → Result SignedInt
in_range negative digits =
    if is_empty digits || ltb (if negative then 2 ^ 31 else 2 ^ 31 - 1) (value 0 digits)
    then throws (other (codes "stoi"))
    else returns (record { is_negative = negative; magnitude = value 0 digits })

signed : Text → Result SignedInt
unfolding in_range
signed [] = in_range false []
signed (c ∷ s) =
    if c == b'-'
    then in_range true (leading_digits s)
    else in_range false (leading_digits (if c == b'+' then s else c ∷ s))

-- `std::stoi`: blanks, a sign, and digits; what follows these is ignored.
unfoldable pub stoi : Text → Result SignedInt
unfolding signed
stoi s = signed (skip_space s)

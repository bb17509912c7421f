-- ===== src/Network/Addresses/Reference.antt =====
-- `inet_pton` and `inet_ntop` for AF_INET: four numbers with dots in between. The address is in
-- network byte order, so its lowest byte comes first.
use octopusmq_cpp.Base.{
  ℕ, ◌+◌, ◌*◌, ◌/◌, ◌%◌, ◌<◌, ◌≤◌, ◌^◌, ◌≡◌, ◌≢◌, refl, ap, Bool, true, false, ◌&&◌, Option, none,
  some, [], ◌∷◌, ◌++◌, ◌==◌, leb, Text, is_empty, not, if◌then◌else◌, All, length, length-append,
  arith,
}
use octopusmq_cpp.Numerals.{is_digit, decimal, value}
use octopusmq_cpp.Numerals.Digits.{IsDigit, Prints, decimal-Prints, length-decimal}
use octopusmq_cpp.Network.Addresses.{Inet}

-- A text up to its first dot, and what follows the dot.
abbrev pub onto : ℕ → Text × Option Text → Text × Option Text
onto c (s, rest) = (c ∷ s, rest)

abbrev pub cut : Text → Text × Option Text
cut [] = ([], none)
cut (c ∷ s) = if c == b'.' then ([], some s) else onto c (cut s)

abbrev pub all_digits : Text → Bool
all_digits [] = true
all_digits (c ∷ s) = is_digit c && all_digits s

abbrev pub byte : Text → Option ℕ
byte s = if not (is_empty s) && all_digits s && leb (value 0 s) 255 then some (value 0 s) else none

-- So many bytes, the lowest first.
abbrev pub with_rest : Option ℕ → Option ℕ → Option ℕ
with_rest none rest = none
with_rest (some n) none = none
with_rest (some n) (some rest) = some (n + 256 * rest)

abbrev pub last_byte : Text × Option Text → Option ℕ
last_byte (s, none) = byte s
last_byte (s, some rest) = none

abbrev pub next_byte : (Text → Option ℕ) → Text × Option Text → Option ℕ
next_byte read (s, none) = none
next_byte read (s, some rest) = with_rest (byte s) (read rest)

unfoldable pub pton : Text → Option ℕ
pton t =
    next_byte (λ u. next_byte (λ v. next_byte (λ w. last_byte (cut w)) (cut v)) (cut u)) (cut t)

unfoldable pub ntop : ℕ → Text
ntop ip =
    decimal (ip % 256)
    ++ b'.'
      ∷ (decimal (ip / 256 % 256)
          ++ b'.' ∷ (decimal (ip / 65536 % 256) ++ b'.' ∷ decimal (ip / 16777216 % 256)))

cut-dot : (s t : Text) → All IsDigit s → cut (s ++ b'.' ∷ t) ≡ (s, some t)
cut-dot [] t h = refl
cut-dot (c ∷ s) t h =
    let no : (c == b'.') ≡ false = ground (arith, h.0) in rw (no, cut-dot s t h.1) refl

cut_digits : (s : Text) → All IsDigit s → cut s ≡ (s, none)
cut_digits [] h = refl
cut_digits (c ∷ s) h =
    let no : (c == b'.') ≡ false = ground (arith, h.0) in rw (no, cut_digits s h.1) refl

all_digits-true : (s : Text) → All IsDigit s → all_digits s ≡ true
all_digits-true [] h = refl
all_digits-true (c ∷ s) h = ground (arith, h.0, all_digits-true s h.1)

byte-Prints : (s : Text) (n : ℕ) → Prints n s → n ≤ 255 → byte s ≡ some n
byte-Prints [] n h k = absurd (let some_digit = h.some_digit in omega arith)
byte-Prints (c ∷ s) n h k =
    let fits : leb n 255 ≡ true = ground arith in
    rw (all_digits-true (c ∷ s) h.digits, h.spells, fits) refl

pton-ntop : (ip : ℕ) → ip < 2 ^ 32 → pton (ntop ip) ≡ some ip
unfolding pton ntop
pton-ntop ip small =
    let a = decimal-Prints (ip % 256) in
    let b = decimal-Prints (ip / 256 % 256) in
    let c = decimal-Prints (ip / 65536 % 256) in
    let d = decimal-Prints (ip / 16777216 % 256) in
    rw
      (
        cut-dot (decimal (ip % 256)) _ a.digits,
        cut-dot (decimal (ip / 256 % 256)) _ b.digits,
        cut-dot (decimal (ip / 65536 % 256)) _ c.digits,
        cut_digits (decimal (ip / 16777216 % 256)) d.digits,
        byte-Prints _ _ a (omega arith),
        byte-Prints _ _ b (omega arith),
        byte-Prints _ _ c (omega arith),
        byte-Prints _ _ d (omega arith),
      )
      (ap some (omega arith))

dotted-ne-nil : (s t : Text) → s ++ b'.' ∷ t ≢ []
dotted-ne-nil [] t e = cc
dotted-ne-nil (c ∷ s) t e = cc

abbrev pub NoColon : Text → Type 0
NoColon t = All (λ c. c ≢ b':') t

digits-NoColon : (s : Text) → All IsDigit s → NoColon s
digits-NoColon [] h = tt
digits-NoColon (c ∷ s) h = (ground (arith, h.0), digits-NoColon s h.1)

dotted-NoColon : (s t : Text) → All IsDigit s → NoColon t → NoColon (s ++ b'.' ∷ t)
dotted-NoColon [] t h k = (omega arith, k)
dotted-NoColon (c ∷ s) t h k = (ground (arith, h.0), dotted-NoColon s t h.1 k)

-- A byte, a dot, and more.
length-dotted :
    (n k : ℕ) (t : Text) → n < 256 → length t ≤ k → length (decimal n ++ b'.' ∷ t) ≤ 4 + k
length-dotted n k t h m =
    let few = length-decimal 2 n (omega arith) in
    omega (arith, length-append (decimal n) (b'.' ∷ t), few)

length-ntop : (ip : ℕ) → length (ntop ip) ≤ 15
unfolding ntop
length-ntop ip = length-dotted _ 11 _ (omega arith) (
    length-dotted _ 7 _ (omega arith)
      (length-dotted _ 3 _ (omega arith) (length-decimal 2 _ (omega arith))))

ntop-NoColon : (ip : ℕ) → NoColon (ntop ip)
unfolding ntop
ntop-NoColon ip = dotted-NoColon _ _ (decimal-Prints (ip % 256)).digits (
    dotted-NoColon _ _ (decimal-Prints (ip / 256 % 256)).digits (
      dotted-NoColon _ _ (decimal-Prints (ip / 65536 % 256)).digits
        (digits-NoColon _ (decimal-Prints (ip / 16777216 % 256)).digits)))

ntop-ne-nil : (ip : ℕ) → ntop ip ≢ []
unfolding ntop
ntop-ne-nil ip = dotted-ne-nil _ _

pub inet_lem :
    (ip : ℕ)
    → ip < 2 ^ 32
    → (t : Text) × (some (ntop ip) ≡ some t)
      × (pton t ≡ some ip)
      × (t ≢ [])
      × (length t ≤ 15)
      × NoColon t
inet_lem ip small =
    (ntop ip, refl, pton-ntop ip small, ntop-ne-nil ip, length-ntop ip, ntop-NoColon ip)

abbrev pub inet : Inet
inet = record { pton = pton; ntop = λ ip. some (ntop ip); ntop_lem = inet_lem }

-- ===== src/Log/Stamps.antt =====
-- src/core/log.cpp, `log::print_time`: the time in front of a line.
use octopusmq_cpp.Base.{
  ℕ, ◌+◌, ◌-◌, ◌/◌, ◌^◌, ◌≤◌, ◌<◌, ◌≡◌, ◌≢◌, refl, ap, subst, ◌∙◌, ◌⊎◌, inl, inr, true, false,
  Bool-cases, ◌∷◌, ◌++◌, append_assoc, ◌==◌, ltb, Text, codes, length, take, drop, take-append,
  drop-append, arith, length-append,
}
use octopusmq_cpp.Error.{other, returns, throws}
use octopusmq_cpp.Numerals.{SignedInt, decimal, print_int}
use octopusmq_cpp.Numerals.Digits.{length-decimal}
use octopusmq_cpp.Numerals.Splits.{thousandths, decimal_thousands, length-decimal_exact}
use octopusmq_cpp.Log.{
  LogType, info, note, warning, error, fatal, more, Log, printed, raised, put, pad_left,
  insert_point, put_stamp, begun, print_clock, timestamp, print_time, line_begin,
}

insert_point-append : (s t : Text) → length s ≡ 10 → insert_point (s ++ t) ≡ returns (s ++ b'.' ∷ t)
insert_point-append s t e =
    let long : ltb (length (s ++ t)) 10 ≡ false = ground (arith, length-append s t, e) in
    let before : take 10 (s ++ t) ≡ s = subst (λ n. take n (s ++ t) ≡ s) e (take-append s t) in
    let behind : drop 10 (s ++ t) ≡ t = subst (λ n. drop n (s ++ t) ≡ t) e (drop-append s t) in
    rw (long, before, behind) refl

insert_point_short :
    (s : Text) → length s ≤ 9 → insert_point s ≡ throws (other (codes "basic_string::insert"))
insert_point_short s h = let short : ltb (length s) 10 ≡ true = ground arith in rw short refl

put_stamp_full :
    (t : Text) (l : Log)
    → length t ≡ 14
    → put_stamp (returns t) (begun l.start_timestamp l)
      ≡ printed (put (line_begin ++ t ++ codes ": ") (record l { readings = l.readings + 1 }))
put_stamp_full t l e =
    let padded : pad_left 14 b'0' t ≡ t = rw e refl in
    ap (λ s. printed (record l { out = s; readings = l.readings + 1 }))
      (ap (λ s. l.out ++ line_begin ++ (s ++ codes ": ")) padded
        ∙ append_assoc l.out line_begin (t ++ codes ": "))

abbrev plain : ℕ → SignedInt
plain n = record { is_negative = false; magnitude = n }

timestamp_absolute :
    (now : ℕ) (l : Log)
    → l.relative_timestamp ≡ false
    → timestamp now l ≡ (plain now, l.start_timestamp)
timestamp_absolute now l h = ground (arith, h)

print_time_clock :
    (type : LogType) (l : Log)
    → type ≢ more
    → print_time type l ≡ print_clock (timestamp (l.clock l.readings) l) l
unfolding print_time
print_time_clock info l h = refl
print_time_clock note l h = refl
print_time_clock warning l h = refl
print_time_clock error l h = refl
print_time_clock fatal l h = refl
print_time_clock more l h = absurd (h refl)

-- A line of any type but `more`, at a time between 2001 and 2286, begins with the seconds since the
-- epoch, a point, three digits for the milliseconds, and a colon.
pub print_time_seconds :
    (type : LogType) (l : Log)
    → type ≢ more
    → l.relative_timestamp ≡ false
    → 10 ^ 12 ≤ l.clock l.readings
    → l.clock l.readings < 10 ^ 13
    → print_time type l
      ≡ printed (
          put
            (line_begin
              ++ decimal (l.clock l.readings / 1000)
              ++ b'.' ∷ thousandths (l.clock l.readings)
              ++ codes ": ")
            (record l { readings = l.readings + 1 }))
unfolding print_int
print_time_seconds type l timed absolute from to =
    let now = l.clock l.readings in
    let seconds = decimal (now / 1000) in
    let ten : length seconds ≡ 10 =
      length-decimal_exact 9 (now / 1000) (omega arith) (omega arith) in
    let text : insert_point (decimal now) ≡ returns (seconds ++ b'.' ∷ thousandths now) =
      ap insert_point (decimal_thousands now (omega arith))
      ∙ insert_point-append seconds (thousandths now) ten in
    print_time_clock type l timed
    ∙ ap (λ t. print_clock t l) (timestamp_absolute now l absolute)
    ∙ ap (λ r. put_stamp r (begun l.start_timestamp l)) text
    ∙ put_stamp_full (seconds ++ b'.' ∷ thousandths now) l
        (ground (arith, ten, length-append seconds (b'.' ∷ thousandths now)))

timestamp_relative :
    (now : ℕ) (l : Log)
    → l.relative_timestamp ≡ true
    → (l.start_timestamp ≡ 0) ⊎ (l.start_timestamp ≤ now) × (now < l.start_timestamp + 10 ^ 9)
    → (start : ℕ) × (t : ℕ) × (t < 10 ^ 9) × (timestamp now l ≡ (plain t, start))
timestamp_relative now l h early = elim (Bool-cases (l.start_timestamp == 0)) [
  | inl first ↦ (now, 0, omega arith, ground (arith, h, first))
  | inr later ↦ (
    l.start_timestamp,
    now - l.start_timestamp,
    ground (arith, early, later),
    ground (arith, h, early, later),
  )
]

-- If times were relative to the first one, then the first line of any type but `more` would end by
-- an exception, and so would every later one in the first 10 ^ 9 milliseconds.
pub print_time_relative :
    (type : LogType) (l : Log)
    → type ≢ more
    → l.relative_timestamp ≡ true
    → (l.start_timestamp ≡ 0)
      ⊎ (l.start_timestamp ≤ l.clock l.readings) × (l.clock l.readings < l.start_timestamp + 10 ^ 9)
    → (m : Log) × (print_time type l ≡ raised (other (codes "basic_string::insert")) m)
unfolding print_int
print_time_relative type l timed relative early =
    let (start, t, few, e) = timestamp_relative (l.clock l.readings) l relative early in
    (
      begun start l,
      print_time_clock type l timed
          ∙ ap (λ t. print_clock t l) e
          ∙ ap (λ r. put_stamp r (begun start l))
              (insert_point_short (decimal t) (length-decimal 8 t few)),
    )

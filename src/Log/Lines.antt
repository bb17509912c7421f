-- ===== src/Log/Lines.antt =====
-- src/core/log.cpp: the lines that calls of `log::print` put out, one after the other.
use octopusmq_cpp.Base.{
  ℕ, ◌+◌, ◌/◌, ◌^◌, ◌≤◌, ◌<◌, ◌≡◌, ◌≢◌, refl, sym, ap, subst, ◌∙◌, false, some, List, [], ◌∷◌, ◌++◌,
  append_assoc, append-nil, Text, codes, is_empty, take, arith,
}
use octopusmq_cpp.Numerals.{decimal}
use octopusmq_cpp.Numerals.Splits.{thousandths}
use octopusmq_cpp.Log.{
  LogType, more, Log, Printing, printed, ◌>>=◌, put, pad_left, line_begin, line_end, reset,
  log_prefix, print_time, print,
}
use octopusmq_cpp.Log.Stamps.{print_time_seconds}
use octopusmq_cpp.Log.Format.{Argument, expand, plain, print_format}

-- The clock shows times between 2001 and 2286, which are printed as they are.
pub record Clear (l : Log) : Type 0 where
  pub absolute : l.relative_timestamp ≡ false
  pub since : (n : ℕ) → 10 ^ 12 ≤ l.clock n
  pub till : (n : ℕ) → l.clock n < 10 ^ 13

abbrev pub stamp : ℕ → Text
stamp now = line_begin ++ decimal (now / 1000) ++ b'.' ∷ thousandths now ++ codes ": "

pub put-put : (s t : Text) (l : Log) → put t (put s l) ≡ put (s ++ t) l
put-put s t l = ap (λ x. record l { out = x }) (append_assoc l.out s t)

abbrev pub counted : Log → Log
counted l = record l { readings = l.readings + 1 }

pub print_time-stamp :
    (type : LogType) (l : Log)
    → type ≢ more
    → Clear l
    → print_time type l ≡ printed (put (stamp (l.clock l.readings)) (counted l))
print_time-stamp type l timed clear =
    print_time_seconds type l timed clear.absolute (clear.since l.readings) (clear.till l.readings)

pub print-stamp :
    (type : LogType) (s : Text) (l : Log)
    → type ≢ more
    → is_empty s ≡ false
    → Clear l
    → print type s l
      ≡ printed (
          put
            (stamp (l.clock l.readings) ++ (log_prefix type ++ s ++ reset ++ line_end))
            (counted l))
unfolding print
print-stamp type s l timed full clear =
    rw (print, full, print_time-stamp type l timed clear)
      (ap printed (put-put (stamp (l.clock l.readings)) _ (counted l)))

-- What a call puts out: a line with the time in front, or a text as it is.
pub data Shown : Type 0 where
  timed : LogType → Text → Shown
  raw : Text → Shown

-- The text, from a reading of the clock on, and how many readings there are.
abbrev pub spelled : (ℕ → ℕ) → ℕ → List Shown → Text
spelled clock n [] = []
spelled clock n (timed type s ∷ shown) =
    (stamp (clock n) ++ (log_prefix type ++ s ++ reset ++ line_end)) ++ spelled clock (n + 1) shown
spelled clock n (raw t ∷ shown) = t ++ spelled clock n shown

abbrev pub ticks : List Shown → ℕ
ticks [] = 0
ticks (timed type s ∷ shown) = 1 + ticks shown
ticks (raw t ∷ shown) = ticks shown

-- From one state to the next these have been put out, by the same clock.
pub record Shows (l : Log) (shown : List Shown) (m : Log) : Type 0 where
  pub out : m.out ≡ l.out ++ spelled l.clock l.readings shown
  pub clock : m.clock ≡ l.clock
  pub readings : m.readings ≡ l.readings + ticks shown
  pub absolute : m.relative_timestamp ≡ l.relative_timestamp

abbrev pub Prints : List Shown → Log → Printing → Type 0
Prints shown l call = (m : Log) × (call ≡ printed m) × Shows l shown m

pub Shows-Clear : {l m : Log} {shown : List Shown} → Shows l shown m → Clear l → Clear m
Shows-Clear {l} {m} h clear = record {
  absolute = h.absolute ∙ clear.absolute;
  since = λ n. subst (λ (c : ℕ → ℕ). 10 ^ 12 ≤ c n) (sym h.clock) (clear.since n);
  till = λ n. subst (λ (c : ℕ → ℕ). c n < 10 ^ 13) (sym h.clock) (clear.till n);
}

pub Shows-refl : (l : Log) → Shows l [] l
Shows-refl l = record {
  out = sym (append-nil l.out);
  clock = refl;
  readings = omega arith;
  absolute = refl;
}

spelled-append :
    (clock : ℕ → ℕ) (n : ℕ) (xs ys : List Shown)
    → spelled clock n (xs ++ ys) ≡ spelled clock n xs ++ spelled clock (n + ticks xs) ys
spelled-append clock n [] ys = ap (λ k. spelled clock k ys) (omega arith)
spelled-append clock n (timed type s ∷ xs) ys =
    ap (λ t. (stamp (clock n) ++ (log_prefix type ++ s ++ reset ++ line_end)) ++ t)
      (spelled-append clock (n + 1) xs ys
        ∙ ap (λ k. spelled clock (n + 1) xs ++ spelled clock k ys) (omega arith))
    ∙ sym (
        append_assoc (stamp (clock n) ++ (log_prefix type ++ s ++ reset ++ line_end))
          (spelled clock (n + 1) xs) _)
spelled-append clock n (raw t ∷ xs) ys =
    ap (λ u. t ++ u) (spelled-append clock n xs ys) ∙ sym (append_assoc t (spelled clock n xs) _)

ticks-append : (xs ys : List Shown) → ticks (xs ++ ys) ≡ ticks xs + ticks ys
ticks-append [] ys = omega arith
ticks-append (timed type s ∷ xs) ys = omega (arith, ticks-append xs ys)
ticks-append (raw t ∷ xs) ys = ticks-append xs ys

pub Shows-trans :
    {l m n : Log} {xs ys : List Shown} → Shows l xs m → Shows m ys n → Shows l (xs ++ ys) n
Shows-trans {l} {m} {n} {xs} {ys} h k = record {
  out =
      k.out
      ∙ ap (λ (c : ℕ → ℕ). m.out ++ spelled c m.readings ys) h.clock
      ∙ ap (λ r. m.out ++ spelled l.clock r ys) h.readings
      ∙ ap (λ t. t ++ spelled l.clock (l.readings + ticks xs) ys) h.out
      ∙ append_assoc l.out (spelled l.clock l.readings xs) _
      ∙ ap (λ t. l.out ++ t) (sym (spelled-append l.clock l.readings xs ys));
  clock = k.clock ∙ h.clock;
  readings = omega (arith, h.readings, k.readings, ticks-append xs ys);
  absolute = k.absolute ∙ h.absolute;
}

-- `print`, of a type with the time in front.
pub print-Prints :
    (type : LogType) (s : Text) (l : Log)
    → type ≢ more
    → is_empty s ≡ false
    → Clear l
    → Prints (timed type s ∷ []) l (print type s l)
print-Prints type s l h full clear = (
  _,
  print-stamp type s l h full clear,
  record {
    out = ap (λ t. l.out ++ t) (sym (append-nil _));
    clock = refl;
    readings = omega arith;
    absolute = refl;
  },
)

-- `print` with a format; what does not fit into the buffer is cut off.
pub print_format-Prints :
    (type : LogType) (format : Text) (args : List Argument) (t : Text) (l : Log)
    → type ≢ more
    → is_empty format ≡ false
    → expand plain format args ≡ some t
    → Clear l
    → Prints (timed type (take 255 t) ∷ []) l (print_format type (some format) args l)
unfolding print_format
print_format-Prints type format args t l h full e clear = (
  record (put (stamp (l.clock l.readings) ++ (log_prefix type ++ take 255 t ++ reset ++ line_end))
      (counted l)) { buffer = take 255 t },
  rw (print_format, full, print_time-stamp type l h clear, e)
      (ap (λ o. printed (record (counted l) { buffer = take 255 t; out = o }))
        (append_assoc l.out (stamp (l.clock l.readings)) _)),
  record {
    out = ap (λ t. l.out ++ t) (sym (append-nil _));
    clock = refl;
    readings = omega arith;
    absolute = refl;
  },
)

-- A line of the type `more`.
abbrev pub listed : Text → Text
listed s = (line_begin ++ pad_left 16 b' ' (codes " ")) ++ (s ++ reset ++ line_end)

pub more-Prints :
    (s : Text) (l : Log) → is_empty s ≡ false → Prints (raw (listed s) ∷ []) l (print more s l)
unfolding print print_time
more-Prints s l full = (
  put (listed s) l,
  rw (print, full) (ap printed (put-put (line_begin ++ pad_left 16 b' ' (codes " ")) _ l)),
  record {
    out = ap (λ t. l.out ++ t) (sym (append-nil _));
    clock = refl;
    readings = omega arith;
    absolute = refl;
  },
)

pub put-Shows : (t : Text) (l : Log) → Shows l (raw t ∷ []) (put t l)
put-Shows t l = record {
  out = ap (λ t. l.out ++ t) (sym (append-nil t));
  clock = refl;
  readings = omega arith;
  absolute = refl;
}

-- A call, and then another one.
pub then-Prints :
    {xs ys : List Shown} (l : Log) (call : Printing) (next : Log → Printing)
    → Prints xs l call
    → ((m : Log) → Shows l xs m → Prints ys m (next m))
    → Prints (xs ++ ys) l (call >>= next)
then-Prints l call next (m, e, h) k =
    let (n, f, g) = k m h in
    (n, subst (λ (c : Printing). (c >>= next) ≡ printed n) (sym e) f, Shows-trans h g)

-- ===== src/Log/Format.antt =====
-- src/core/log.cpp, `log::print` with a format, and the lines of the program that are printed by
-- it.
use octopusmq_cpp.Base.{
  ℕ, ◌-◌, ◌≡◌, ◌≢◌, refl, Bool, true, false, Option, none, some, List, [], ◌∷◌, ◌++◌, ◌==◌,
  if◌then◌else◌, Text, codes, is_empty, take, All, arith,
}
use octopusmq_cpp.Numerals.{decimal}
use octopusmq_cpp.Log.{
  LogType, info, fatal, Log, Printing, printed, fault, ◌>>=◌, icon, red, bold, reset, line_end,
  version_string, log_prefix, put, print_time,
}

-- An argument of a call with `...`.
pub data Argument : Type 0 where
  text : Text → Argument
  number : ℕ → Argument

-- How much of a conversion has been read.
pub data Reading : Type 0 where
  plain percent long : Reading

abbrev pub before_all : Text → Option Text → Option Text
before_all t none = none
before_all t (some rest) = some (t ++ rest)

-- What `vsnprintf` writes into a buffer that is large enough, for the conversions `%s`, `%lu` and
-- `%%`, of which the program makes use; `none` is a call that is undefined: an argument is missing
-- or not of the type of its conversion, or the conversion is not complete.
unfoldable pub expand : Reading → Text → List Argument → Option Text
expand plain [] args = some []
expand percent [] args = none
expand long [] args = none
expand plain (c ∷ format) args = elim (c == b'%') [
  | true ↦ expand percent format args
  | false ↦ before_all (c ∷ []) (expand plain format args)
]
expand percent (c ∷ format) [] = elim (c == b'%') [
  | true ↦ before_all (c ∷ []) (expand plain format [])
  | false ↦ none
]
expand percent (c ∷ format) (text t ∷ args) = elim (c == b'%') [
  | true ↦ before_all (c ∷ []) (expand plain format (text t ∷ args))
  | false ↦ elim (c == b's') [ true ↦ before_all t (expand plain format args) | false ↦ none ]
]
expand percent (c ∷ format) (number n ∷ args) = elim (c == b'%') [
  | true ↦ before_all (c ∷ []) (expand plain format (number n ∷ args))
  | false ↦ elim (c == b'l') [ true ↦ expand long format (number n ∷ args) | false ↦ none ]
]
expand long (c ∷ format) [] = none
expand long (c ∷ format) (text t ∷ args) = none
expand long (c ∷ format) (number n ∷ args) = elim (c == b'u') [
  | true ↦ before_all (decimal n) (expand plain format args)
  | false ↦ none
]

abbrev pub max_log_line_length : ℕ
max_log_line_length = 256

-- The buffer has one byte for the zero.
abbrev pub print_buffer : LogType → Option Text → Log → Printing
print_buffer type none l = fault
print_buffer type (some t) l =
    let m = record l { buffer = take (max_log_line_length - 1) t } in
    printed (put (log_prefix type ++ m.buffer ++ reset ++ line_end) m)

abbrev pub print_given : LogType → Text → List Argument → Log → Printing
print_given type format args l =
    if is_empty format
    then printed l
    else print_time type l >>= print_buffer type (expand plain format args)

-- `print(type, format, ...)`; `format` is `none` for the null pointer.
unfoldable pub print_format : LogType → Option Text → List Argument → Log → Printing
print_format type none args l = printed l
print_format type (some format) args l = print_given type format args l

unfoldable pub print_started : Bool → Log → Printing
print_started daemon l =
    print_format info (some (codes "%s%soctopusMQ %s started%s.%s"))
      (text icon
        ∷ text bold
        ∷ text version_string
        ∷ text (if daemon then codes " as a daemon" else [])
        ∷ text reset
        ∷ [])
      l

unfoldable pub print_stopped : Bool → Log → Printing
print_stopped error l =
    if error
    then print_format info (some (codes "%s%sstopped due to an error.%s"))
        (text red ∷ text bold ∷ text reset ∷ []) l
    else print_format info (some (codes "stopped.")) [] l

-- `print(log_type::fatal, e.what())`, which takes the text as a format.
unfoldable pub report : Text → Log → Printing
report what l = print_format fatal (some what) [] l

abbrev pub IsPlain : Text → Type 0
IsPlain s = All (λ c. c ≢ b'%') s

-- Goes on with no second `%`.
abbrev pub Unpaired : Text → Type 0
Unpaired [] = Unit
Unpaired (c ∷ s) = c ≢ b'%'

expand-plain : (s : Text) → IsPlain s → expand plain s [] ≡ some s
unfolding expand
expand-plain [] h = refl
expand-plain (c ∷ s) h =
    let no : (c == b'%') ≡ false = ground (arith, h.0) in rw (expand, no, expand-plain s h.1) refl

expand-Unpaired : (s t : Text) → IsPlain s → Unpaired t → expand plain (s ++ b'%' ∷ t) [] ≡ none
unfolding expand
expand-Unpaired [] [] h k = refl
expand-Unpaired [] (c ∷ t) h k =
    let no : (c == b'%') ≡ false = ground (arith, k) in rw (expand, no) refl
expand-Unpaired (c ∷ s) t h k =
    let no : (c == b'%') ≡ false = ground (arith, h.0) in
    rw (expand, no, expand-Unpaired s t h.1 k) refl

-- When the clock can be printed: an error whose text has no percent sign is reported by its first
-- 255 characters; but reporting a text in which a percent sign comes first that is not followed by
-- a second one is undefined.
pub report_lem :
    (l m : Log) (s t : Text)
    → print_time fatal l ≡ printed m
    → IsPlain s
    → (s ≢ []
        → report s l
          ≡ printed (
              put
                (log_prefix fatal ++ take 255 s ++ reset ++ line_end)
                (record m { buffer = take 255 s })))
      × (Unpaired t → report (s ++ b'%' ∷ t) l ≡ fault)
unfolding report print_format
report_lem l m s t time plain_s = (some_text s plain_s, percent_text s plain_s)
  where
    some_text :
        (s : Text)
        → IsPlain s
        → s ≢ []
        → print_given fatal s [] l
          ≡ printed (
              put
                (log_prefix fatal ++ take 255 s ++ reset ++ line_end)
                (record m { buffer = take 255 s }))
    some_text [] h full = absurd (full refl)
    some_text (c ∷ s) h full = rw (time, expand-plain (c ∷ s) h) refl

    percent_text :
        (s : Text) → IsPlain s → Unpaired t → print_given fatal (s ++ b'%' ∷ t) [] l ≡ fault
    percent_text [] h k = rw (time, expand-Unpaired [] t h k) refl
    percent_text (c ∷ s) h k = rw (time, expand-Unpaired (c ∷ s) t h k) refl

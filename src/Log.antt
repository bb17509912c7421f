-- ===== src/Log.antt =====
-- src/core/log.hpp and src/core/log.cpp: what the program prints.
pub mod Format
pub mod Sizes
pub mod Stamps
pub mod Lines
pub mod Tests
use octopusmq_cpp.Base.{
  ℕ, zero, suc, ◌+◌, ◌-◌, ◌*◌, ◌/◌, ◌%◌, ◌^◌, Bool, true, false, not, ◌&&◌, Option, none, some,
  List, [], ◌∷◌, ◌++◌, ◌==◌, ltb, if◌then◌else◌, Text, codes, text_eq, is_empty, length, take, drop,
}
use octopusmq_cpp.Error.{Error, other, Result, returns, throws}
use octopusmq_cpp.Numerals.{SignedInt, decimal, print_int}
use octopusmq_cpp.Network.{Address, NetworkEvent, send, receive}
use octopusmq_cpp.Network.Addresses.{Inet, to_string}

pub data LogType : Type 0 where
  info note warning error fatal more : LogType

-- The escape that begins the code of a style.
abbrev pub style : Text → Text
style s = 27 ∷ s

abbrev pub red : Text
red = style (codes "[31m")

abbrev pub yellow : Text
yellow = style (codes "[33m")

abbrev pub cyan : Text
cyan = style (codes "[36m")

abbrev pub white : Text
white = style (codes "[37m")

abbrev pub bold : Text
bold = style (codes "[1m")

abbrev pub reset : Text
reset = style (codes "[0m")

-- `OCTOMQ_ICON`, but on a Mac.
abbrev pub icon : Text
icon = []

abbrev pub line_begin : Text
line_begin = 13 ∷ []

-- `std::endl`.
abbrev pub line_end : Text
line_end = 10 ∷ []

abbrev pub version_string : Text
version_string = codes "1.2.0"

-- `_log_prefix`.
abbrev pub log_prefix : LogType → Text
log_prefix note = cyan ++ bold ++ codes "note: " ++ reset ++ bold
log_prefix warning = yellow ++ bold ++ codes "warning: " ++ reset ++ bold
log_prefix error = red ++ bold ++ codes "error: " ++ reset ++ bold
log_prefix fatal = red ++ bold ++ codes "fatal: " ++ reset ++ bold
log_prefix info = []
log_prefix more = []

-- The static members, what `std::cout` has got, and the clock, in milliseconds: what it shows when
-- it is read after so many readings, and how many there have been.
pub record Log : Type 0 where
  pub buffer : Text
  pub start_timestamp : ℕ
  pub relative_timestamp : Bool
  pub last_adapter_name : Text
  pub out : Text
  pub clock : ℕ → ℕ
  pub readings : ℕ

-- A call ends, or ends by an exception, or is undefined.
pub data Printing : Type 0 where
  printed : Log → Printing
  raised : Error → Log → Printing
  fault : Printing

infixl 5 ◌>>=◌
abbrev pub ◌>>=◌ : Printing → (Log → Printing) → Printing
printed l >>= next = next l
raised e l >>= next = raised e l
fault >>= next = fault

-- `std::cout << text`.
abbrev pub put : Text → Log → Log
put text l = record l { out = l.out ++ text }

-- Copies of a character.
abbrev pub fill : ℕ → ℕ → Text
fill zero c = []
fill (suc n) c = c ∷ fill n c

-- `std::setw` and `std::setfill`, with `std::right` and `std::left`.
abbrev pub pad_left : ℕ → ℕ → Text → Text
pad_left width c t = fill (width - length t) c ++ t

abbrev pub pad_right : ℕ → ℕ → Text → Text
pad_right width c t = t ++ fill (width - length t) c

abbrev pub difference : ℕ → ℕ → SignedInt
difference a b =
    if ltb a b
    then record { is_negative = true; magnitude = b - a }
    else record { is_negative = false; magnitude = a - b }

-- The number to print for the clock's `now`, and what `_start_timestamp` is then.
abbrev pub timestamp : ℕ → Log → SignedInt × ℕ
timestamp now l =
    if l.relative_timestamp
    then (if l.start_timestamp == 0
        then (record { is_negative = false; magnitude = 0 }, now)
        else (difference now l.start_timestamp, l.start_timestamp))
    else (record { is_negative = false; magnitude = now }, l.start_timestamp)

-- `text.insert(10, ".")`, which throws `std::out_of_range` where the text has fewer characters.
abbrev pub insert_point : Text → Result Text
insert_point t =
    if ltb (length t) 10
    then throws (other (codes "basic_string::insert"))
    else returns (take 10 t ++ b'.' ∷ drop 10 t)

abbrev pub put_stamp : Result Text → Log → Printing
put_stamp (throws e) l = raised e l
put_stamp (returns t) l = printed (put (pad_left 14 b'0' t ++ codes ": ") l)

-- The clock has been read, and the line begins.
abbrev pub begun : ℕ → Log → Log
begun start l = put line_begin (record l { start_timestamp = start; readings = l.readings + 1 })

abbrev pub print_clock : SignedInt × ℕ → Log → Printing
print_clock (shown, start) l = put_stamp (insert_point (print_int shown)) (begun start l)

unfoldable pub print_time : LogType → Log → Printing
print_time more l = printed (put (line_begin ++ pad_left 16 b' ' (codes " ")) l)
print_time info l = print_clock (timestamp (l.clock l.readings) l) l
print_time note l = print_clock (timestamp (l.clock l.readings) l) l
print_time warning l = print_clock (timestamp (l.clock l.readings) l) l
print_time error l = print_clock (timestamp (l.clock l.readings) l) l
print_time fatal l = print_clock (timestamp (l.clock l.readings) l) l

-- `print(type, message)`.
unfoldable pub print : LogType → Text → Log → Printing
print type message l =
    if is_empty message
    then printed l
    else print_time type l >>= λ m.
        printed (put (log_prefix type ++ message ++ reset ++ line_end) m)

unfoldable pub print_empty_line : Log → Log
print_empty_line l = put line_end l

-- `print_action`; `remote` is printed when the text before it is.
abbrev pub put_remote : Result Text → Text → Log → Printing
put_remote (throws e) client_id l = raised e l
put_remote (returns address) client_id l = printed (
    put
      (address
        ++ (if is_empty client_id
            then line_end
            else white ++ codes " (" ++ client_id ++ codes ")" ++ reset ++ line_end))
      l)

abbrev pub arrow : NetworkEvent → Text
arrow receive = codes " <-- "
arrow send = codes " --> "

unfoldable pub print_action : Inet → NetworkEvent → Text → Address → Text → Log → Printing
print_action inet event_type action remote client_id l = print_time info l >>= λ m.
    put_remote (to_string inet remote) client_id
      (put (reset ++ pad_left 18 b' ' action ++ arrow event_type) m)

abbrev pub header : Text → Text
header adapter_name = bold ++ pad_right 35 b' ' adapter_name ++ reset ++ line_end

-- The line with an adapter's name.
abbrev pub print_name : Text → Log → Printing
print_name adapter_name l = print_time more l >>= λ m.
    printed (put (header adapter_name) (record m { last_adapter_name = adapter_name }))

unfoldable pub print_event : Inet → Text → Address → Text → NetworkEvent → Text → Log → Printing
print_event inet adapter_name remote client_id event_type action l =
    (if text_eq l.last_adapter_name adapter_name then printed l else print_name adapter_name l)
    >>= print_action inet event_type action remote client_id

-- What `print_help` puts out.
abbrev pub help_text : Text
help_text =
    bold
    ++ codes "octopusmq"
    ++ reset
    ++ codes " /path/to/settings.json [--option [value]]"
    ++ line_end
    ++ codes "options:"
    ++ line_end
    ++ pad_right 16 b' ' (codes "    --daemon")
    ++ codes "daemonize the process. useful when running from systemd."
    ++ line_end
    ++ pad_right 16 b' ' (codes "    --help")
    ++ codes "print this help message and exit."
    ++ line_end

unfoldable pub print_help : Log → Log
print_help l = put help_text l

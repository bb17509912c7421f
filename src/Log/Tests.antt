-- ===== src/Log/Tests.antt =====
-- src/core/log.cpp at concrete logs, with its theorems.
use octopusmq_cpp.Base.{
  ◌+◌, ◌-◌, ◌^◌, ◌≤◌, ◌<◌, ◌≡◌, ◌≢◌, refl, true, false, none, some, List, [], ◌∷◌, ◌++◌, text_eq,
  if◌then◌else◌, length, Text, codes, take, arith,
}
use octopusmq_cpp.Error.{what, invalid_topic_filter}
use octopusmq_cpp.Numerals.{decimal, print_int, of_uint32}
use octopusmq_cpp.Network.{Address, send, receive}
use octopusmq_cpp.Network.Addresses.{to_string}
use octopusmq_cpp.Network.Addresses.Reference.{inet}
use octopusmq_cpp.Log.{
  info, fatal, Log, printed, fault, put, bold, reset, line_begin, line_end, log_prefix, print_time,
  print, print_action, print_event,
}
use octopusmq_cpp.Log.Format.{
  expand, text, number, plain, Unpaired, print_format, print_started, report, report_lem,
}
use octopusmq_cpp.Log.Sizes.{round_even, last_bit, to_double, size_to_string}
use octopusmq_cpp.Log.Sizes.Bounds.{Nearest, size_to_string_lem}
use octopusmq_cpp.Broker.{Entry, event, closed, failed, connect, publish}
use octopusmq_cpp.Broker.Logged.{action_text, print_entry, print_entries}
use octopusmq_cpp.Log.Lines.{Clear}
use octopusmq_cpp.Broker.Logged.Lines.{lines, name_line}
use octopusmq_cpp.Broker.Logged.Headers.{print_entries_lem}

logs : Unit {0}
unfolding decimal print_int of_uint32 to_string print_time print print_action print_event expand
    print_format print_started report what round_even last_bit to_double size_to_string action_text
    print_entry print_entries
logs = tt

abbrev pub fresh : Log
fresh = record {
  buffer = [];
  start_timestamp = 0;
  relative_timestamp = false;
  last_adapter_name = [];
  out = [];
  clock = λ n. 1600000000123;
  readings = 0;
}

abbrev timed : Log
timed = record fresh { readings = 1 }

print_tests :
    (print info (codes "x") fresh
      ≡ printed (put (line_begin ++ codes "1600000000.123: x" ++ reset ++ line_end) timed))
    × (expand plain (codes "%s: %lu%%") (text (codes "a") ∷ number 12 ∷ []) ≡ some (codes "a: 12%"))
    × (expand plain (codes "%lu") (text (codes "a") ∷ []) ≡ none)
    × (print_started false fresh
        ≡ printed (
            put
              (line_begin
                ++ codes "1600000000.123: "
                ++ bold
                ++ codes "octopusMQ 1.2.0 started."
                ++ reset
                ++ reset
                ++ line_end)
              (record timed { buffer = bold ++ codes "octopusMQ 1.2.0 started." ++ reset })))
    × (report (what (invalid_topic_filter (codes "a/50%/#"))) fresh ≡ fault)
unfolding logs
print_tests = (refl, refl, refl, refl, refl)

sizes_test :
    (size_to_string 1023 ≡ codes "1023 B")
    × (size_to_string 1024 ≡ codes "1.0 KB")
    × (size_to_string 1280 ≡ codes "1.2 KB")
    × (size_to_string 1048575 ≡ codes "1024.0 KB")
    × (size_to_string 1073741824 ≡ codes "1.0 GB")
    × (to_double (2 ^ 53 + 1) ≡ 2 ^ 53)
    × (to_double (2 ^ 64 - 1) ≡ 2 ^ 64)
unfolding logs
sizes_test = (refl, refl, refl, refl, refl, refl, refl)

abbrev half : Text
half = codes "settings error: invalid topic filter 'a/50"

fresh-print_time :
    print_time fatal fresh ≡ printed (put (line_begin ++ codes "1600000000.123: ") timed)
unfolding logs
fresh-print_time = refl

report_lem_example :
    (half ≢ []
      → report half fresh
        ≡ printed (
            put
              (log_prefix fatal ++ take 255 half ++ reset ++ line_end)
              (record (put (line_begin ++ codes "1600000000.123: ") timed) {
                buffer = take 255 half;
              })))
    × (Unpaired (codes "/#'.") → report (half ++ b'%' ∷ codes "/#'.") fresh ≡ fault)
report_lem_example =
    report_lem fresh (put (line_begin ++ codes "1600000000.123: ") timed) half (codes "/#'.")
      fresh-print_time (ground arith)

size_to_string_lem_example :
    (length (size_to_string 1280) ≤ 12)
    × (1280 < 2 ^ 10 → size_to_string 1280 ≡ decimal 1280 ++ codes " B")
    × (2 ^ 10 ≤ 1280 → 1280 < 2 ^ 20 → Nearest 1280 (2 ^ 10) (codes " KB") (size_to_string 1280))
    × (2 ^ 20 ≤ 1280 → 1280 < 2 ^ 30 → Nearest 1280 (2 ^ 20) (codes " MB") (size_to_string 1280))
    × (2 ^ 30 ≤ 1280 → Nearest 1280 (2 ^ 30) (codes " GB") (size_to_string 1280))
size_to_string_lem_example = size_to_string_lem 1280 (omega arith)

abbrev home : Address
home = record { ip = 16777343; port = 1883 }

abbrev here : Text
here = codes "[*:1883] mqtt"

abbrev connected : Entry
connected = event home (codes "c") receive connect

abbrev later : List Entry
later =
    event home (codes "c") send (publish 5) ∷ failed (codes "connection lost") home (codes "c") ∷ []

pub fresh-Clear : Clear fresh
fresh-Clear = record { absolute = refl; since = λ n. omega arith; till = λ n. omega arith }

print_entries_lem_example :
    (m : Log) × (print_entries inet here (closed ∷ connected ∷ later) fresh ≡ printed m)
    × (m.out
        ≡ fresh.out
          ++ (lines inet here fresh.clock 0 (closed ∷ [])
              ++ ((if text_eq [] here then [] else name_line inet here)
                  ++ lines inet here fresh.clock 1 (connected ∷ later))))
    × (text_eq m.last_adapter_name here ≡ true)
print_entries_lem_example =
    print_entries_lem inet here (closed ∷ []) connected later fresh (refl, tt) refl
      (tt, (omega arith, (omega arith, (omega arith, tt)))) fresh-Clear

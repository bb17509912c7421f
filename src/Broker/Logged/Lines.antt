-- ===== src/Broker/Logged/Lines.antt =====
-- The line of each entry of a broker's log, and that it is what is printed.
use octopusmq_cpp.Base.{
  ℕ, ◌+◌, ◌^◌, ◌<◌, ◌≡◌, refl, ap, ◌∙◌, inl, inr, Bool, true, false, not, ◌&&◌, Bool-cases, List,
  [], ◌∷◌, ◌++◌, if◌then◌else◌, Text, codes, text_eq, eq_of_text_eq, is_empty, is_empty-middle,
}
use octopusmq_cpp.Error.{Result, returns, throws}
use octopusmq_cpp.Network.{Address, NetworkEvent}
use octopusmq_cpp.Network.Addresses.{Inet, to_string}
use octopusmq_cpp.Log.{
  info, error, Log, printed, put, pad_left, line_begin, line_end, reset, white, log_prefix, header,
  arrow, print_time, print_action, print_event,
}
use octopusmq_cpp.Log.Lines.{Clear, stamp, put-put, counted, print_time-stamp, print-stamp}
use octopusmq_cpp.Broker.{Action, Entry, event, closed, failed}
use octopusmq_cpp.Broker.Logged.{action_text, failure_text, print_entry}

-- A 32-bit address in the entry.
abbrev pub IsPrintable : Entry → Type 0
IsPrintable (event a client_id dir action) = a.ip < 2 ^ 32
IsPrintable closed = Unit
IsPrintable (failed what a client_id) = a.ip < 2 ^ 32

abbrev pub is_event : Entry → Bool
is_event (event a client_id dir action) = true
is_event closed = false
is_event (failed what a client_id) = false

module _ (inet : Inet) (name : Text) where
  abbrev pub or_nothing : Result Text → Text
  or_nothing (throws e) = []
  or_nothing (returns t) = t

  abbrev pub in_parentheses : Text → Text
  in_parentheses client_id =
      if is_empty client_id
      then line_end
      else white ++ codes " (" ++ client_id ++ codes ")" ++ reset ++ line_end

  -- The line of an entry at a time.
  abbrev pub line : ℕ → Entry → Text
  line now (event a client_id dir action) =
      stamp now
      ++ (reset ++ pad_left 18 b' ' (action_text action) ++ arrow dir)
      ++ (or_nothing (to_string inet a) ++ in_parentheses client_id)
  line now closed = stamp now ++ ([] ++ (name ++ codes ": connection closed.") ++ reset ++ line_end)
  line now (failed what a client_id) =
      stamp now
      ++ (log_prefix error
          ++ (name ++ (codes ": " ++ failure_text what (or_nothing (to_string inet a)) client_id))
          ++ reset
          ++ line_end)

  -- The lines of entries from a reading of the clock on.
  abbrev pub lines : (ℕ → ℕ) → ℕ → List Entry → Text
  lines clock n [] = []
  lines clock n (e ∷ es) = line (clock n) e ++ lines clock (n + 1) es

  to_string_returns :
      (a : Address) → a.ip < 2 ^ 32 → to_string inet a ≡ returns (or_nothing (to_string inet a))
  unfolding to_string
  to_string_returns a h = let shown = (inet.ntop_lem a.ip h).1 in rw (shown, to_string) refl

  action-time :
      (a : Address) (client_id : Text) (dir : NetworkEvent) (action : Action) (l : Log)
      → a.ip < 2 ^ 32
      → Clear l
      → print_action inet dir (action_text action) a client_id l
        ≡ printed (put (line (l.clock l.readings) (event a client_id dir action)) (counted l))
  unfolding print_action
  action-time a client_id dir action l h clear =
      let what = reset ++ pad_left 18 b' ' (action_text action) ++ arrow dir in
      let now = stamp (l.clock l.readings) in
      let remote = or_nothing (to_string inet a) ++ in_parentheses client_id in
      rw (print_action, print_time-stamp info l (λ e. cc) clear, to_string_returns a h)
        (ap printed (
          ap (put remote) (put-put now what (counted l))
          ∙ put-put (now ++ what) remote (counted l)))

  -- The line that names the adapter, before a first event.
  abbrev pub name_line : Text
  name_line = line_begin ++ pad_left 16 b' ' (codes " ") ++ header name

  abbrev pub name_before : Entry → Log → Text
  name_before e l = if is_event e && not (text_eq l.last_adapter_name name) then name_line else []

  -- The log when an entry has been printed.
  abbrev pub after : Entry → Log → Log
  after e l =
      put (name_before e l ++ line (l.clock l.readings) e) (record (counted l) {
        last_adapter_name = if is_event e then name else l.last_adapter_name;
      })

  named :
      (t : Text) (l : Log)
      → put t (put (header name) (put (line_begin ++ pad_left 16 b' ' (codes " ")) l))
        ≡ put (name_line ++ t) l
  named t l =
      ap (put t) (put-put (line_begin ++ pad_left 16 b' ' (codes " ")) (header name) l)
      ∙ put-put name_line t l

  event-after :
      (a : Address) (client_id : Text) (dir : NetworkEvent) (action : Action) (l : Log)
      → a.ip < 2 ^ 32
      → Clear l
      → print_event inet name a client_id dir (action_text action) l
        ≡ printed (after (event a client_id dir action) l)
  unfolding print_event print_time
  event-after a client_id dir action l h clear =
      elim (Bool-cases (text_eq l.last_adapter_name name)) [
        | inl same ↦
            rw (print_event, same)
              (action-time a client_id dir action l h clear
                ∙ ap
                    (λ t. printed (
                      put (line (l.clock l.readings) (event a client_id dir action))
                        (record (counted l) { last_adapter_name = t })))
                    (eq_of_text_eq l.last_adapter_name name same))
        | inr other ↦
            rw (print_event, other)
              (action-time a client_id dir action _ h
                  (record { absolute = clear.absolute; since = clear.since; till = clear.till })
                ∙ ap printed (
                    named (line (l.clock l.readings) (event a client_id dir action))
                      (record (counted l) { last_adapter_name = name })))
      ]

  pub print_entry-after :
      (e : Entry) (l : Log)
      → IsPrintable e
      → Clear l
      → print_entry inet name e l ≡ printed (after e l)
  unfolding print_entry
  print_entry-after (event a client_id dir action) l h clear =
      event-after a client_id dir action l h clear
  print_entry-after closed l h clear =
      print-stamp info (name ++ codes ": connection closed.") l (λ e. cc) (is_empty-middle name _ _)
        clear
  print_entry-after (failed what a client_id) l h clear =
      rw (print_entry, to_string_returns a h)
        (print-stamp error
          (name ++ (codes ": " ++ failure_text what (or_nothing (to_string inet a)) client_id)) l
          (λ e. cc) (is_empty-middle name _ _) clear)

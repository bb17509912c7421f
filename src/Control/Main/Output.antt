-- ===== src/Control/Main/Output.antt =====
-- src/octopus_mq.cpp and src/threads/control.cpp: what a whole run of the program prints, and what
-- it returns.
use octopusmq_cpp.Base.{
  ℕ, ◌≡◌, refl, sym, subst, Bool, true, false, Option, none, some, List, [], ◌∷◌, ◌++◌, ltb, length,
  Text, codes, is_empty, is_empty-middle, take, if◌then◌else◌,
}
use octopusmq_cpp.Error.{Error, what}
use octopusmq_cpp.Numerals.{decimal}
use octopusmq_cpp.Platform.{Platform}
use octopusmq_cpp.Network.Addresses.{Inet, ip_string}
use octopusmq_cpp.Log.{
  info, error, fatal, Log, Printing, printed, fault, ◌>>=◌, red, white, bold, reset, line_end,
  help_text, print_help, print_empty_line,
}
use octopusmq_cpp.Log.Format.{
  text, number, expand, plain, print_format, print_started, print_stopped, report,
}
use octopusmq_cpp.Log.Lines.{
  Clear, Shown, timed, raw, Shows, Prints, listed, Shows-Clear, Shows-refl, Shows-trans,
  print_time-stamp, print-Prints, print_format-Prints, more-Prints, put-Shows, then-Prints,
}
use octopusmq_cpp.Adapter.{Settings}
use octopusmq_cpp.Control.Reports.{
  print_daemonize, print_failed, print_missing, print_each, print_adapters,
}
use octopusmq_cpp.Control.Main.{Stage, ended, aborted, tried, stops, caught}

abbrev pub started : Shown
started = timed info (bold ++ codes "octopusMQ 1.2.0 started." ++ reset)

abbrev pub stopped : Shown
stopped = timed info (codes "stopped.")

abbrev pub stopped_by_error : Shown
stopped_by_error = timed info (red ++ bold ++ codes "stopped due to an error." ++ reset)

-- The report of an exception, from what its text expands to; an empty text is not printed.
abbrev pub reported : Text → Text → List Shown
reported s t = if is_empty s then [] else timed fatal (take 255 t) ∷ []

abbrev pub adapter_text : Inet → Settings → Text
adapter_text inet s =
    s.name
    ++ white
    ++ codes " listening on "
    ++ ip_string inet s.phy.ip
    ++ codes ":"
    ++ decimal s.port
    ++ reset

-- A line for each adapter, and an empty one.
abbrev pub adapter_lines : Inet → List Settings → List Shown
adapter_lines inet [] = raw line_end ∷ []
adapter_lines inet (s ∷ ss) = raw (listed (adapter_text inet s)) ∷ adapter_lines inet ss

abbrev pub noun : List Settings → Text
noun pool = if ltb 1 (length pool) then codes "adapters" else codes "adapter"

abbrev pub heading : List Settings → Text
heading pool =
    codes "running " ++ (decimal (length pool) ++ (codes " " ++ (noun pool ++ codes ":")))

abbrev pub adapters_shown : Inet → List Settings → List Shown
adapters_shown inet pool = timed info (take 255 (heading pool)) ∷ adapter_lines inet pool

pub started-Prints : (l : Log) → Clear l → Prints (started ∷ []) l (print_started false l)
unfolding print_started expand
started-Prints l clear = print_format-Prints info _ _ _ l (λ e. cc) refl refl clear

stopped-Prints : (l : Log) → Clear l → Prints (stopped ∷ []) l (print_stopped false l)
unfolding print_stopped expand
stopped-Prints l clear = print_format-Prints info _ _ _ l (λ e. cc) refl refl clear

stopped_by_error-Prints :
    (l : Log) → Clear l → Prints (stopped_by_error ∷ []) l (print_stopped true l)
unfolding print_stopped expand
stopped_by_error-Prints l clear = print_format-Prints info _ _ _ l (λ e. cc) refl refl clear

pub missing-Prints :
    (l : Log)
    → Clear l
    → Prints
        (timed error (codes "configuration file argument is missing.") ∷ raw help_text ∷ [])
        l
        (print_missing l)
unfolding print_missing expand print_help
missing-Prints l clear =
    then-Prints l _ _ (print_format-Prints error _ _ _ l (λ e. cc) refl refl clear)
      (λ m h. (_, refl, put-Shows help_text m))

abbrev pub daemon_refused : Shown
daemon_refused =
    timed fatal (codes "daemonization is not supported in current version of octopusmq.")

pub daemonize-Prints : (l : Log) → Clear l → Prints (daemon_refused ∷ []) l (print_daemonize l)
unfolding print_daemonize expand
daemonize-Prints l clear = print_format-Prints fatal _ _ _ l (λ e. cc) refl refl clear

abbrev pub adapter_refused : Settings → Error → Shown
adapter_refused s e = timed fatal (codes "adapter '" ++ s.name ++ codes "': " ++ what e)

pub failed-Prints :
    (s : Settings) (e : Error) (l : Log)
    → Clear l
    → Prints (adapter_refused s e ∷ []) l (print_failed s e l)
unfolding print_failed
failed-Prints s e l clear = print-Prints fatal _ l (λ e. cc) refl clear

-- A text with no conversion that lacks its argument.
report-Prints :
    (s t : Text) (l : Log)
    → expand plain s [] ≡ some t
    → Clear l
    → Prints (reported s t) l (report s l)
unfolding report print_format
report-Prints [] t l h clear = (l, refl, Shows-refl l)
report-Prints (c ∷ s) t l h clear = print_format-Prints fatal (c ∷ s) [] t l (λ e. cc) refl h clear

expand-nil : expand plain [] [] ≡ some []
unfolding expand
expand-nil = refl

report-fault : (s : Text) (l : Log) → expand plain s [] ≡ none → Clear l → report s l ≡ fault
unfolding report print_format
report-fault [] l h clear = absurd (cc (expand-nil, h))
report-fault (c ∷ s) l h clear = rw (report, print_time-stamp fatal l (λ e. cc) clear, h) refl

each-Prints :
    (inet : Inet) (ss : List Settings) (l : Log)
    → Prints (adapter_lines inet ss) l (print_each inet ss l >>= λ m. printed (print_empty_line m))
unfolding print_each print_empty_line
each-Prints inet [] l = (_, refl, put-Shows line_end l)
each-Prints inet (s ∷ ss) l =
    let (m, e, h) = more-Prints (adapter_text inet s) l (is_empty-middle _ _ 27) in
    let (n, f, k) = each-Prints inet ss m in (n, rw (print_each, e) f, Shows-trans h k)

pub adapters-Prints :
    (inet : Inet) (ss : List Settings) (l : Log)
    → Clear l
    → Prints (adapters_shown inet ss) l (print_adapters inet ss l)
unfolding print_adapters expand
adapters-Prints inet ss l clear =
    let (m, e, h) =
      print_format-Prints info (codes "running %lu %s:") (number (length ss) ∷ text (noun ss) ∷ [])
        (heading ss) l (λ e. cc) refl refl clear in
    let (n, f, k) = each-Prints inet ss m in (n, rw (print_adapters, e) f, Shows-trans h k)

module _ (p : Platform) where
  -- The program is over, with this exit code, and has put these out.
  abbrev pub Ends : ℕ → List Shown → Log → Stage p → Type 0
  Ends code shown l stage = (m : Log) × (stage ≡ ended code m) × Shows l shown m

  pub tried-Ends :
      {code : ℕ} {xs ys : List Shown} (l : Log) (call : Printing) (next : Log → Stage p)
      → Prints xs l call
      → ((m : Log) → Shows l xs m → Ends code ys m (next m))
      → Ends code (xs ++ ys) l (tried p call next)
  tried-Ends {code} l call next (m, e, h) k =
      let (n, f, g) = k m h in
      (n, subst (λ c. tried p c next ≡ ended code n) (sym e) f, Shows-trans h g)

  pub tried-last :
      {code : ℕ} {xs : List Shown} (l : Log) (call : Printing)
      → Prints xs l call
      → Ends code xs l (tried p call (ended code))
  tried-last {code} l call (m, e, h) =
      (m, subst (λ c. tried p c (ended code) ≡ ended code m) (sym e) refl, h)

  caught-Ends :
      (e : Error) (t : Text) (l : Log)
      → expand plain (what e) [] ≡ some t
      → Clear l
      → Ends 1 (reported (what e) t ++ stopped_by_error ∷ []) l (caught p e l)
  caught-Ends e t l h clear =
      let (m, k, shows) =
        then-Prints l (report (what e) l) (print_stopped true) (report-Prints (what e) t l h clear)
          (λ m shows. stopped_by_error-Prints m (Shows-Clear shows clear)) in
      (m, rw k refl, shows)

  -- What the `catch` of `main` makes of an exception whose text expands to this, if it does.
  abbrev pub Caught : Error → Option Text → Log → Stage p → Type 0
  Caught e none l stage = stage ≡ aborted
  Caught e (some t) l stage = Ends 1 (reported (what e) t ++ stopped_by_error ∷ []) l stage

  pub caught_lem :
      (e : Error) (l : Log) → Clear l → Caught e (expand plain (what e) []) l (caught p e l)
  caught_lem e l clear = go (expand plain (what e) []) refl
    where
      go : (o : Option Text) → expand plain (what e) [] ≡ o → Caught e o l (caught p e l)
      go none h = rw (report-fault (what e) l h clear) refl
      go (some t) h = caught-Ends e t l h clear

  abbrev pub last_line : Bool → Shown
  last_line is_initialized = if is_initialized then stopped else stopped_by_error

  pub stops-Ends :
      (is_initialized : Bool) (l : Log)
      → Clear l
      → Ends 0 (last_line is_initialized ∷ []) l (stops p is_initialized l)
  stops-Ends true l clear = tried-last l _ (stopped-Prints l clear)
  stops-Ends false l clear = tried-last l _ (stopped_by_error-Prints l clear)

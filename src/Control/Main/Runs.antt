-- ===== src/Control/Main/Runs.antt =====
-- src/octopus_mq.cpp and src/threads/control.cpp: the runs of the program, from its start to its
-- end.
use octopusmq_cpp.Base.{
  ◌≡◌, refl, ap, ◌∙◌, inl, inr, Bool-cases, true, false, Option, none, some, List, [], ◌∷◌, Text,
  codes, if◌then◌else◌,
}
use octopusmq_cpp.Error.{Error, what, is_runtime, Result, returns, throws, ◌>>=◌}
use octopusmq_cpp.Scope.Includes.{Any}
use octopusmq_cpp.Platform.{Platform}
use octopusmq_cpp.Network.Addresses.{Inet}
use octopusmq_cpp.Log.{error, Log, help_text, print_help}
use octopusmq_cpp.Log.Format.{expand, plain, print_started}
use octopusmq_cpp.Log.Lines.{Clear, timed, raw, Shows, Shows-Clear, Shows-trans, put-Shows}
use octopusmq_cpp.Adapter.{Settings, Adapter, Slot}
use octopusmq_cpp.Adapter.Parsing.{Build}
use octopusmq_cpp.Adapter.Factory.{from_settings}
use octopusmq_cpp.Settings.{slots}
use octopusmq_cpp.Control.{
  Files, Arguments, exits, raised, loaded, arguments, initialize_loop, run_all, running, run,
}
use octopusmq_cpp.Control.Managing.{Controlled, start, Manages}
use octopusmq_cpp.Control.Ending.{shutdown_adapters_lem}
use octopusmq_cpp.Control.Main.{
  Stage, aborted, looping, tried, failing, runs, initializes, goes_on, main, finish,
}
use octopusmq_cpp.Control.Main.Nulls.{HasNull, stopped_by_null}
use octopusmq_cpp.Control.Main.Output.{
  started, stopped_by_error, adapters_shown, daemon_refused, adapter_refused, Ends, tried-Ends,
  tried-last, Caught, caught_lem, last_line, stops-Ends, started-Prints, missing-Prints,
  daemonize-Prints, failed-Prints, adapters-Prints,
}

module _ (p : Platform) (build : Build) (inet : Inet) where
  rest_throws :
      (a : Slot p) (rest : Result (List (Slot p))) (e : Error)
      → (do others ← rest; returns (a ∷ others)) ≡ throws e
      → rest ≡ throws e
  unfolding ◌>>=◌
  rest_throws a (throws x) e h = cc
  rest_throws a (returns others) e h = cc

  -- The loop that makes the adapters has stopped at the adapter that could not be made.
  pub failing_lem :
      (ss : List (Slot p)) (e : Error)
      → initialize_loop p build ss ≡ throws e
      → (s : Slot p) × Any (λ t. t ≡ s) ss
        × (failing p build inet ss ≡ some s.settings)
        × (from_settings p build s.id (some s.settings) [] ≡ throws e)
  unfolding initialize_loop failing ◌>>=◌
  failing_lem [] e h = absurd (cc)
  failing_lem (s ∷ ss) e h =
      go (from_settings p build s.id (some s.settings) []) refl h (λ k. failing_lem ss e k)
    where
      go :
          (made : Result (Adapter p))
          → from_settings p build s.id (some s.settings) [] ≡ made
          → (do
            a ← made
            rest ← initialize_loop p build ss
            returns (record s { adapter = a } ∷ rest))
            ≡ throws e
          → (initialize_loop p build ss ≡ throws e
              → (t : Slot p) × Any (λ u. u ≡ t) ss
                × (failing p build inet ss ≡ some t.settings)
                × (from_settings p build t.id (some t.settings) [] ≡ throws e))
          → (t : Slot p) × Any (λ u. u ≡ t) (s ∷ ss)
            × (failing p build inet (s ∷ ss) ≡ some t.settings)
            × (from_settings p build t.id (some t.settings) [] ≡ throws e)
      go (throws x) k h ih =
          let same : x ≡ e = cc h in (s, inl refl, rw (failing, k) refl, k ∙ ap throws same)
      go (returns a) k h ih =
          let (t, among, f, g) =
            ih (rest_throws (record s { adapter = a }) (initialize_loop p build ss) e h) in
          (t, inr among, rw (failing, k) f, g)

  -- The program ends because an adapter cannot be made; its name is printed.
  abbrev pub Refuses : List (Slot p) → Error → Log → Stage p → Type 0
  Refuses ss e l stage =
      (s : Slot p) × Any (λ t. t ≡ s) ss
      × (from_settings p build s.id (some s.settings) [] ≡ throws e)
      × Ends p 0 (started ∷ adapter_refused s.settings e ∷ stopped_by_error ∷ []) l stage

  -- It ends by another exception while adapters are made.
  abbrev pub Escapes : Error → Log → Stage p → Type 0
  Escapes e l stage =
      (m : Log) × Shows l (started ∷ []) m × Caught p e (expand plain (what e) []) m stage

  -- The adapters that were made run, or one of them is a null pointer.
  abbrev pub Serves :
      List Settings → List (Slot p) → Option (List (Slot p)) → Log → Stage p → Type 0
  Serves read made none l stage = HasNull p made × (stage ≡ aborted)
  Serves read made (some pool) l stage =
      (m : Log) × (stage ≡ looping pool m) × Shows l (started ∷ adapters_shown inet read) m

  abbrev pub Starts : List Settings → Result (List (Slot p)) → Log → Stage p → Type 0
  Starts read (throws e) l stage =
      if is_runtime e then Refuses (slots p 0 read) e l stage else Escapes e l stage
  Starts read (returns made) l stage = Serves read made (run_all p build made) l stage

  -- What the program does after the loop over its arguments.
  abbrev pub Answers : Arguments → Log → Stage p → Type 0
  Answers (exits code) l stage = Ends p code (raw help_text ∷ []) l stage
  Answers (raised e) l stage = Caught p e (expand plain (what e) []) l stage
  Answers (loaded [] daemon read) l stage =
      Ends p 0 (timed error (codes "configuration file argument is missing.") ∷ raw help_text ∷ [])
        l stage
  Answers (loaded (c ∷ file) true read) l stage = Ends p 1 (daemon_refused ∷ []) l stage
  Answers (loaded (c ∷ file) false read) l stage =
      Starts read (initialize_loop p build (slots p 0 read)) l stage

  initialized-Starts :
      (read : List Settings) (made : Result (List (Slot p))) (l : Log)
      → initialize_loop p build (slots p 0 read) ≡ made
      → Clear l
      → Starts read made l (tried p (print_started false l) (initializes p build inet read made))
  initialized-Starts read (throws e) l h clear = elim (Bool-cases (is_runtime e)) [
    | inl runtime_error ↦
        let (t, among, f, k) = failing_lem (slots p 0 read) e h in
        rw runtime_error (
          t,
          among,
          k,
          tried-Ends p l _ _ (started-Prints l clear) (λ m shows.
              rw (runtime_error, f)
                (tried-Ends p m _ _ (failed-Prints t.settings e m (Shows-Clear shows clear))
                  (λ n later. stops-Ends p false n (Shows-Clear later (Shows-Clear shows clear))))),
        )
    | inr other ↦
        let (m, k, shows) = started-Prints l clear in
        rw (other, k) (m, shows, rw other (caught_lem p e m (Shows-Clear shows clear)))
  ]
  initialized-Starts read (returns made) l h clear =
      let (m, e, shows) = started-Prints l clear in
      rw e (served (run_all p build made) (stopped_by_null p build (slots p 0 read) made h) m shows)
    where
      served :
          (o : Option (List (Slot p)))
          → (o ≡ none → HasNull p made)
          → (m : Log) → Shows l (started ∷ []) m
          → Serves read made o l (runs p build inet read o m)
      served none why m shows = (why refl, refl)
      served (some pool) why m shows =
          let (n, f, later) = adapters-Prints inet read m (Shows-Clear shows clear) in
          (n, rw f refl, Shows-trans shows later)

  goes_on-Answers : (a : Arguments) (l : Log) → Clear l → Answers a l (goes_on p build inet a l)
  unfolding print_help
  goes_on-Answers (exits code) l clear = (_, refl, put-Shows help_text l)
  goes_on-Answers (raised e) l clear = caught_lem p e l clear
  goes_on-Answers (loaded [] daemon read) l clear = tried-last p l _ (missing-Prints l clear)
  goes_on-Answers (loaded (c ∷ file) true read) l clear =
      tried-last p l _ (daemonize-Prints l clear)
  goes_on-Answers (loaded (c ∷ file) false read) l clear =
      initialized-Starts read (initialize_loop p build (slots p 0 read)) l refl clear

  -- The program from its start to the loop around the message queue, for any arguments and any
  -- configuration, when the clock can be printed. `--help` prints the help, and exits. An error in
  -- the arguments or in the configuration file is reported by the first 255 characters that its
  -- text stands for as a format, then comes the line that the program stopped due to an error, and
  -- it returns 1; it is undefined if the text is no complete format. With no file, an error and the
  -- help are printed, and 0 is returned. With `--daemon` and a file, it prints that this is not
  -- supported, and exits with 1. If an adapter of the file cannot be made, for a
  -- `std::runtime_error`, then after the line that the program started there is one with the name
  -- of an adapter at which this error is thrown, and its text, then the line that it stopped due to
  -- an error, and it returns 0; another exception while the adapters are made ends it, after the
  -- first line, like an error in the arguments. Otherwise all adapters are made; then that line is
  -- followed by the number of the adapters and a line for each of them, in their order, and the
  -- loop begins, or one of the adapters is a null pointer, and the call of its `run` is undefined.
  pub main-Answers :
      (files : Files) (args : List Text) (l : Log)
      → Clear l
      → Answers (arguments files args [] false []) l (main p build inet files args l)
  unfolding main
  main-Answers files args l clear = goes_on-Answers (arguments files args [] false []) l clear

  -- Whatever has happened in the loop around the message queue: when it has ended, one more line is
  -- printed, `stopped.`, or that the program stopped due to an error if `_initialized` is false by
  -- then, and the program returns 0.
  pub finish-Ends :
      (files : Files) (args : List Text) (pool : List (Slot p)) (d : Controlled p) (l : Log)
      → run p build files args ≡ running pool
      → Manages p (start p pool) d
      → Clear l
      → Ends p 0 (last_line p d.initialized ∷ []) l (finish p d l)
  unfolding finish
  finish-Ends files args pool d l e manages clear =
      rw (finish, (shutdown_adapters_lem p build files args pool d e manages).0)
        (stops-Ends p d.initialized l clear)

-- ===== src/Control/Main.antt =====
-- src/octopus_mq.cpp and src/threads/control.cpp: `main` and `control::run`, with what they print.
pub mod Output
pub mod Nulls
pub mod Runs
use octopusmq_cpp.Base.{
  ℕ, Bool, true, false, not, Option, none, some, List, [], ◌∷◌, if◌then◌else◌, Text, is_empty,
}
use octopusmq_cpp.Error.{Error, what, is_runtime, Result, returns, throws}
use octopusmq_cpp.Platform.{Platform}
use octopusmq_cpp.Network.Addresses.{Inet}
use octopusmq_cpp.Log.{Log, Printing, printed, raised, fault, ◌>>=◌, print_help}
use octopusmq_cpp.Log.Format.{print_started, print_stopped, report}
use octopusmq_cpp.Adapter.{Settings, Slot}
use octopusmq_cpp.Adapter.Parsing.{Build}
use octopusmq_cpp.Adapter.Factory.{from_settings}
use octopusmq_cpp.Settings.{slots}
use octopusmq_cpp.Control.{Files, Arguments, loaded, arguments, initialize_loop, run_all}
use octopusmq_cpp.Control.Managing.{Controlled}
use octopusmq_cpp.Control.Ending.{Shut, shutdown_adapters}
use octopusmq_cpp.Control.Reports.{print_daemonize, print_failed, print_missing, print_adapters}

module _ (p : Platform) where
  -- How far the program has come: it has returned or called `exit`; it is undefined, was ended by
  -- `std::terminate`, or may wait without end; or the message queue is managed.
  pub data Stage : Type 0 where
    ended : (code : ℕ) → Log → Stage
    aborted : Stage
    looping : List (Slot p) → Log → Stage

  -- The end of the `catch` of `main`, whose own exceptions nothing catches.
  abbrev pub returning : Printing → Stage
  returning (printed l) = ended 1 l
  returning (raised e l) = aborted
  returning fault = aborted

  abbrev pub caught : Error → Log → Stage
  caught e l = returning (report (what e) l >>= print_stopped true)

  -- A call in `control::run`, and what follows.
  abbrev pub tried : Printing → (Log → Stage) → Stage
  tried (printed l) next = next l
  tried (raised e l) next = caught e l
  tried fault next = aborted

  -- `print_stopped(not _initialized)` at the end of `control::run`; `main` returns 0 then.
  abbrev pub stops : Bool → Log → Stage
  stops is_initialized l = tried (print_stopped (not is_initialized) l) (ended 0)

  module _ (build : Build) (inet : Inet) where
    -- The adapter at which the loop of `initialize_adapters` ends by an exception.
    unfoldable pub failing : List (Slot p) → Option Settings
    failing [] = none
    failing (s ∷ ss) = elim (from_settings p build s.id (some s.settings) []) [
      | throws e ↦ some s.settings
      | returns made ↦ failing ss
    ]

    -- The `catch` of `initialize_adapters`, which prints the name of that adapter.
    abbrev pub refused : Option Settings → Error → Log → Stage
    refused none e l = aborted
    refused (some s) e l = tried (print_failed s e l) (stops false)

    abbrev pub runs : List Settings → Option (List (Slot p)) → Log → Stage
    runs settings none l = aborted
    runs settings (some pool) l = tried (print_adapters inet settings l) (looping pool)

    -- `initialize_adapters`, and `print_adapters` if they run.
    abbrev pub initializes : List Settings → Result (List (Slot p)) → Log → Stage
    initializes settings (throws e) l =
        if is_runtime e then refused (failing (slots p 0 settings)) e l else caught e l
    initializes settings (returns made) l = runs settings (run_all p build made) l

    -- `control::run` after the loop over the arguments; `--help` prints and exits in this loop.
    abbrev pub goes_on : Arguments → Log → Stage
    goes_on (Arguments.exits code) l = ended code (print_help l)
    goes_on (Arguments.raised e) l = caught e l
    goes_on (loaded file daemon settings) l =
        if is_empty file
        then tried (print_missing l) (ended 0)
        else (if daemon
            then tried (print_daemonize l) (ended 1)
            else tried (print_started daemon l)
                (initializes settings (initialize_loop p build (slots p 0 settings))))

    -- `main`, up to the loop around the message queue.
    unfoldable pub main : Files → List Text → Log → Stage
    main files args l = goes_on (arguments files args [] false []) l

  -- What follows when the loop has ended.
  abbrev pub cleared : Shut p → Bool → Log → Stage
  cleared none is_initialized l = aborted
  cleared (some (gone, pool)) is_initialized l = stops is_initialized l

  unfoldable pub finish : Controlled p → Log → Stage
  finish d l = cleared (shutdown_adapters p d.adapter_pool) d.initialized l

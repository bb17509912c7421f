-- ===== src/Control.antt =====
-- src/threads/control.cpp and src/octopus_mq.cpp: from the arguments of the program to the adapters
-- that run.
pub mod Options
pub mod Starting
pub mod Managing
pub mod Managed
pub mod Running
pub mod Aborting
pub mod Ending
pub mod Reports
pub mod Signals
pub mod Main
mod Tests
use octopusmq_cpp.Base.{
  ℕ, Bool, true, false, not, ◌&&◌, ◌||◌, ◌==◌, Option, none, some, List, [], ◌∷◌, ◌++◌,
  if◌then◌else◌, Text, codes, is_empty,
}
use octopusmq_cpp.Error.{Error, runtime, is_runtime, Result, returns, throws, ◌>>=◌, ◌>>◌, require}
use octopusmq_cpp.Platform.{Platform}
use octopusmq_cpp.Broker.Thread.{run_broker}
use octopusmq_cpp.Adapter.{Settings, Adapter, broker, peer, null, Slot}
use octopusmq_cpp.Adapter.Parsing.{Build, by_name}
use octopusmq_cpp.Adapter.Factory.{from_settings}
use octopusmq_cpp.Settings.{slots}

-- What the program asks of the file system, and `settings::load` with what it reads from there.
pub record Files : Type 0 where
  pub absolute : Text → Result Text
  pub exists : Text → Result Bool
  pub is_regular_file : Text → Result Bool
  pub load : Text → Result (List Settings)

-- What comes of the loop over the arguments: the end of the program, an exception, or the values of
-- `config_file_name` and `_daemon`, and the pool.
pub data Arguments : Type 0 where
  exits : ℕ → Arguments
  raised : Error → Arguments
  loaded : (config_file_name : Text) → (daemon : Bool) → List Settings → Arguments

-- `argv[i][0] == '-'`.
abbrev pub is_option : Text → Bool
is_option [] = false
is_option (c ∷ s) = c == b'-'

-- The functions that options call: `arg_daemon` sets `_daemon`, and `arg_help` prints the help and
-- calls `exit(0)`.
pub data ArgHandler : Type 0 where
  arg_daemon arg_help : ArgHandler

-- `_argument_map`.
abbrev pub argument_map : List (Text × ArgHandler)
argument_map = (codes "--daemon", arg_daemon) ∷ (codes "--help", arg_help) ∷ []

module _ (files : Files) where
  -- The branch for a file name, from `absolute` to `settings::load`.
  unfoldable pub open_config : Text → Result (Text × List Settings)
  open_config argument = do
    name ← files.absolute argument
    require (not (is_empty name)) (runtime (codes "not a valid file name: " ++ argument))
    exists ← files.exists name
    require exists (runtime (codes "path does not exist: " ++ name))
    regular ← files.is_regular_file name
    require regular (runtime (codes "not a file: " ++ name))
    pool ← files.load name
    returns (name, pool)

  abbrev pub opened : Result (Text × List Settings) → (Text → List Settings → Arguments) → Arguments
  opened (returns (name, pool)) rest = rest name pool
  opened (throws e) rest = raised e

  -- The loop over the arguments, but for `argv[0]`.
  unfoldable pub arguments : List Text → Text → Bool → List Settings → Arguments
  arguments [] file daemon pool = loaded file daemon pool
  arguments (a ∷ more) file daemon pool =
      let with_daemon = arguments more file true pool in
      let with_file : Text → List Settings → Arguments =
        λ name read. arguments more name daemon read in
      if is_option a
      then elim (by_name a argument_map) [
        | none ↦ raised (runtime (codes "unknown option: " ++ a))
        | some arg_daemon ↦ with_daemon
        | some arg_help ↦ exits 0
      ]
      else (if is_empty file
          then opened (open_config a) with_file
          else raised (runtime (codes "misleading option: " ++ a)))

module _ (p : Platform) (build : Build) where
  -- The loop of `initialize_adapters`, on the empty queue.
  unfoldable pub initialize_loop : List (Slot p) → Result (List (Slot p))
  initialize_loop [] = returns []
  initialize_loop (s ∷ ss) = do
    made ← from_settings p build s.id (some s.settings) []
    rest ← initialize_loop ss
    returns (record s { adapter = made } ∷ rest)

  -- `adapter.second->run()`; `none` is undefined behaviour, or the end of the program.
  abbrev pub run_adapter : Adapter p → Option (Adapter p)
  run_adapter null = none
  run_adapter peer = some peer
  run_adapter (broker b) = elim (run_broker p b) [ none ↦ none | some c ↦ some (broker c) ]

  abbrev pub run_first :
      Option (Adapter p) → Slot p → Option (List (Slot p)) → Option (List (Slot p))
  run_first none s rest = none
  run_first (some a) s none = none
  run_first (some a) s (some rest) = some (record s { adapter = a } ∷ rest)

  -- The loop that runs all adapters.
  unfoldable pub run_all : List (Slot p) → Option (List (Slot p))
  run_all [] = some []
  run_all (s ∷ ss) = run_first (run_adapter s.adapter) s (run_all ss)

  -- How far `control::run` comes: the end of the program with a code; an exception; the help, for
  -- want of a file name; `_initialized` left false; a call of `run` that is undefined; or the
  -- adapters run, and the message queue is managed.
  pub data Start : Type 0 where
    exits : ℕ → Start
    raised : Error → Start
    helped not_initialized fault : Start
    running : List (Slot p) → Start

  abbrev pub ran : Option (List (Slot p)) → Start
  ran none = fault
  ran (some pool) = running pool

  -- `initialize_adapters`, after which all adapters run.
  abbrev pub initialized : Result (List (Slot p)) → Start
  initialized (returns pool) = ran (run_all pool)
  initialized (throws e) = if is_runtime e then not_initialized else raised e

  unfoldable pub initialize_adapters : List Settings → Start
  initialize_adapters pool = initialized (initialize_loop (slots p 0 pool))

  abbrev pub begin : Arguments → Start
  begin (Arguments.exits code) = Start.exits code
  begin (Arguments.raised e) = Start.raised e
  begin (loaded file daemon pool) =
      if is_empty file then helped else (if daemon then Start.exits 1 else initialize_adapters pool)

  -- `control::run` up to `message_queue_manager`.
  unfoldable pub run : Files → List Text → Start
  run files args = begin (arguments files args [] false [])

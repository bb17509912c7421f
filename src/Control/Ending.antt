-- ===== src/Control/Ending.antt =====
-- src/threads/control.cpp and src/octopus_mq.cpp: how the program ends.
use octopusmq_cpp.Base.{
  if◌then◌else◌, ℕ, Bool, true, false, ◌≡◌, ◌≢◌, refl, Option, none, some, List, [], ◌∷◌, Text,
}
use octopusmq_cpp.Platform.{Platform}
use octopusmq_cpp.Broker.Thread.{stop_broker, destroy}
use octopusmq_cpp.Adapter.{Settings, Adapter, broker, peer, null, Slot}
use octopusmq_cpp.Adapter.Parsing.{Build}
use octopusmq_cpp.Error.{Error, is_runtime, throws}
use octopusmq_cpp.Settings.{slots}
use octopusmq_cpp.Control.{
  Arguments, loaded, arguments, initialize_loop, initialize_adapters, begin, Files, Start, exits,
  raised, helped, not_initialized, fault, running, run,
}
use octopusmq_cpp.Control.Managing.{Controlled, start, Manages}
use octopusmq_cpp.Control.Managed.{Sound, IsSound}
use octopusmq_cpp.Control.Running.{run-Sound}

module _ (p : Platform) where
  -- `stop` and the destructor of an adapter; `none` as in `run_adapter`, or where `stop` may never
  -- return.
  abbrev pub stop_adapter : Adapter p → Option (Adapter p)
  stop_adapter null = none
  stop_adapter peer = some peer
  stop_adapter (broker b) = elim (stop_broker p b) [ none ↦ none | some c ↦ some (broker c) ]

  abbrev pub release : Adapter p → Option (Unit {0})
  release null = some tt
  release peer = some tt
  release (broker b) = destroy p b

  -- `adapter.second->stop()` and `adapter.second.reset()`, with the adapter as it is destroyed.
  abbrev pub release_stopped : Option (Adapter p) → Option (Adapter p)
  release_stopped none = none
  release_stopped (some a) = elim (release a) [ none ↦ none | some done ↦ some a ]

  abbrev pub Shut : Type 0
  Shut = Option (List (Adapter p) × List (Slot p))

  abbrev pub shutdown_first : Option (Adapter p) → Slot p → Shut → Shut
  shutdown_first none s rest = none
  shutdown_first (some a) s none = none
  shutdown_first (some a) s (some (gone, rest)) =
      some (a ∷ gone, record s { adapter = null } ∷ rest)

  -- The loop of `shutdown_adapters`, which stops each adapter and resets the pointer to it: the
  -- adapters as they are destroyed, and the pool.
  unfoldable pub shutdown_loop : List (Slot p) → Shut
  shutdown_loop [] = some ([], [])
  shutdown_loop (s ∷ ss) =
      shutdown_first (release_stopped (stop_adapter s.adapter)) s (shutdown_loop ss)

  -- `shutdown_adapters`, which clears the pool then.
  unfoldable pub shutdown_adapters : List (Slot p) → Shut
  shutdown_adapters pool = elim (shutdown_loop pool) [
    | none ↦ none
    | some (gone, rest) ↦ some (gone, [])
  ]

  -- An adapter that was stopped: the server of a broker does not listen, its thread has ended and
  -- was joined, and all else is as before.
  abbrev pub stopped : Adapter p → Adapter p
  stopped (broker b) =
      broker (record b { ioc_stopped = true; listening = false; thread_joinable = false })
  stopped peer = peer
  stopped null = null

  abbrev pub all_stopped : List (Slot p) → List (Adapter p)
  all_stopped [] = []
  all_stopped (s ∷ ss) = stopped s.adapter ∷ all_stopped ss

  module _ (build : Build) where
    -- The exit code of the program, for a start and the state in which `message_queue_manager` ends
    -- if adapters run; `main` catches every exception.
    unfoldable pub exit_code : Start p build → Controlled p → Option ℕ
    exit_code (exits code) d = some code
    exit_code (raised e) d = some 1
    exit_code helped d = some 0
    exit_code not_initialized d = some 0
    exit_code fault d = none
    exit_code (running pool) d = elim (shutdown_adapters d.adapter_pool) [
      | none ↦ none
      | some cleared ↦ some 0
    ]

    shutdown_slot :
        (a : Adapter p) (s : Slot p) (gone : List (Adapter p)) (rest : List (Slot p))
        → Sound p a
        → shutdown_first (release_stopped (stop_adapter a)) s (some (gone, rest))
          ≡ some (stopped a ∷ gone, record s { adapter = null } ∷ rest)
    unfolding destroy stop_broker
    shutdown_slot null s gone rest h = absurd h
    shutdown_slot peer s gone rest h = refl
    shutdown_slot (broker b) s gone rest h = rw (stop_broker, h.is_running.joinable) refl

    shutdown_all :
        (pool : List (Slot p))
        → IsSound p pool
        → (rest : List (Slot p)) × (shutdown_loop pool ≡ some (all_stopped pool, rest))
    unfolding shutdown_loop
    shutdown_all [] h = ([], refl)
    shutdown_all (s ∷ ss) h =
        let (rest, e) = shutdown_all ss h.1 in
        (
          record s { adapter = null } ∷ rest,
          rw (shutdown_loop, e) (shutdown_slot s.adapter s (all_stopped ss) rest h.0),
        )

    -- Whatever the arguments and the configuration were, and whatever the brokers handled while the
    -- adapters ran, also after an exception in the loop of the main thread: when this loop has
    -- ended, the shutdown ends. It makes no call through a null pointer, waits for no thread that
    -- was not told to end, and destroys no thread that runs. It destroys exactly the adapters of
    -- the pool, in their order, after each was stopped: a broker with its server closed and its
    -- thread joined, and all else as it was when the loop ended. The pool is empty then, and the
    -- program returns 0.
    pub shutdown_adapters_lem :
        (files : Files) (args : List Text) (pool : List (Slot p)) (d : Controlled p)
        → run p build files args ≡ running pool
        → Manages p (start p pool) d
        → (shutdown_adapters d.adapter_pool ≡ some (all_stopped d.adapter_pool, []))
          × (exit_code (running pool) d ≡ some 0)
    unfolding shutdown_adapters exit_code
    shutdown_adapters_lem files args pool d e m =
        let (rest, k) = shutdown_all d.adapter_pool (run-Sound p build files args pool d e m).0 in
        (rw (shutdown_adapters, k) refl, rw (exit_code, shutdown_adapters, k) refl)

    -- An error in the arguments or in the configuration file makes the program return 1. But it
    -- returns 0 if no configuration file is named, and if an adapter cannot be made, for a
    -- `std::runtime_error`; other exceptions while adapters are made make it return 1.
    pub exit_code_lem :
        (files : Files) (args : List Text) (d : Controlled p)
        → ((e : Error)
            → arguments files args [] false [] ≡ Arguments.raised e
            → exit_code (run p build files args) d ≡ some 1)
          × ((daemon : Bool) (read : List Settings)
              → arguments files args [] false [] ≡ loaded [] daemon read
              → exit_code (run p build files args) d ≡ some 0)
          × ((file : Text) (read : List Settings) (e : Error)
              → file ≢ []
              → arguments files args [] false [] ≡ loaded file false read
              → initialize_loop p build (slots p 0 read) ≡ throws e
              → exit_code (run p build files args) d ≡ some (if is_runtime e then 0 else 1))
    unfolding exit_code run initialize_adapters
    exit_code_lem files args d = (
      λ e h. rw (run, h) refl,
      λ daemon read h. rw (run, h) refl,
      λ file read e full h k. rw (run, h) (named file read full e k),
    )
      where
        named :
            (file : Text) (read : List Settings)
            → file ≢ []
            → (e : Error) → initialize_loop p build (slots p 0 read) ≡ throws e
            → exit_code (begin p build (loaded file false read)) d
              ≡ some (if is_runtime e then 0 else 1)
        named [] read full e k = absurd (full refl)
        named (c ∷ file) read full e k = rw (initialize_adapters, k) (caught (is_runtime e))
          where
            caught :
                (t : Bool)
                → exit_code (if t then not_initialized else raised e) d ≡ some (if t then 0 else 1)
            caught true = refl
            caught false = refl

-- ===== src/Control/Tests.antt =====
-- Runs of src/threads/control.cpp, and its theorems at concrete inputs.
use octopusmq_cpp.Base.{
  ◌≡◌, refl, ◌↔◌, true, false, not, none, some, List, [], ◌∷◌, ◌++◌, codes, Text, All, is_empty,
}
use octopusmq_cpp.Error.{Error, runtime, is_runtime, returns, ◌>>=◌}
use octopusmq_cpp.Platform.Reference.{reference}
use octopusmq_cpp.Network.Addresses.Reference.{inet, ntop}
use octopusmq_cpp.Json.Reference.{json}
use octopusmq_cpp.Adapter.Factory.{from_settings, make_broker}
use octopusmq_cpp.Settings.Tests.{build, usual, pool, configuration, configuration-parse}
use octopusmq_cpp.Control.{
  Files, exits, raised, loaded, not_initialized, open_config, arguments, Start, running,
  initialize_loop, initialize_adapters, run, run_all,
}
use octopusmq_cpp.Base.{◌⊎◌}
use octopusmq_cpp.Adapter.{Slot, Adapter}
use octopusmq_cpp.Broker.{Broker, init}
use octopusmq_cpp.Broker.Thread.{run_broker}
use octopusmq_cpp.Broker.Handlers.{handle_subscribe}
use octopusmq_cpp.Broker.Events.{Event, handle}
use octopusmq_cpp.Broker.Tests.{broker, anywhere, entries}
use octopusmq_cpp.Queue.{wait_and_pop_all}
use octopusmq_cpp.Control.Managing.{Controlled, start, Handles, Proceeds, Manages}
use octopusmq_cpp.Base.{Option}
use octopusmq_cpp.Network.{Address}
use octopusmq_cpp.Platform.{Platform, Connection}
use octopusmq_cpp.Control.Managed.{IsSound}
use octopusmq_cpp.Control.Running.{run-Sound}
use octopusmq_cpp.Control.Ending.{shutdown_adapters, all_stopped, exit_code, shutdown_adapters_lem}
use octopusmq_cpp.Control.Reports.{print_each, print_adapters}
use octopusmq_cpp.Numerals.{decimal, print_int}
use octopusmq_cpp.Network.Addresses.{ip_string}
use octopusmq_cpp.Log.{
  printed, line_begin, line_end, white, reset, print, print_time, print_empty_line,
}
use octopusmq_cpp.Log.Format.{expand, print_format}
use octopusmq_cpp.Log.Tests.{fresh-Clear, fresh as fresh_log}
use octopusmq_cpp.Control.Main.{main, finish}
use octopusmq_cpp.Control.Main.Output.{Ends, last_line}
use octopusmq_cpp.Control.Main.Runs.{Answers, main-Answers, finish-Ends}
use octopusmq_cpp.Control.Options.{daemon_option, options, names, Config, arguments_iff}
use octopusmq_cpp.Control.Starting.{Unfit, Refused, AllWork, First, fresh, initialize_adapters_lem}

-- One file, which holds the settings of `usual`.
abbrev files : Files
files = record {
  absolute = λ name. returns (codes "/etc/" ++ name);
  exists = λ name. returns true;
  is_regular_file = λ name. returns true;
  load = λ name. returns (usual ∷ []);
}

arguments_tests :
    (arguments files (codes "--daemon" ∷ codes "--help" ∷ codes "-x" ∷ []) [] false [] ≡ exits 0)
    × (arguments files (codes "-x" ∷ codes "--help" ∷ []) [] false []
        ≡ raised (runtime (codes "unknown option: -x")))
    × (arguments files (codes "a" ∷ codes "b" ∷ []) [] false []
        ≡ raised (runtime (codes "misleading option: b")))
    × (run reference build files (codes "a" ∷ codes "--daemon" ∷ []) ≡ Start.exits 1)
    × (run reference build files [] ≡ Start.helped)
    × (run reference build files (codes "a" ∷ []) ≡ running (fresh reference 0 (usual ∷ [])))
unfolding arguments open_config ◌>>=◌ run initialize_adapters initialize_loop from_settings
    make_broker run_all run_broker init
arguments_tests = (refl, refl, refl, refl, refl, refl)

abbrev given : List Text
given = codes "a.json" ∷ codes "--daemon" ∷ []

arguments_iff_example :
    (arguments files given [] false [] ≡ loaded (codes "/etc/a.json") true (usual ∷ [])) ↔ (
      All (λ o. o ≡ daemon_option) (options given)
      × (true ≡ not (is_empty (options given)))
      × Config files (names given) (codes "/etc/a.json") (usual ∷ []))
arguments_iff_example = arguments_iff files given (codes "/etc/a.json") true (usual ∷ [])

initialize_adapters_lem_example :
    (AllWork reference 0 pool
      → initialize_adapters reference build pool ≡ running (fresh reference 0 pool))
    × (First reference (Refused reference) 0 pool
        → initialize_adapters reference build pool ≡ not_initialized)
    × (First reference Unfit 0 pool
        → (e : Error) × (initialize_adapters reference build pool ≡ raised e)
          × (is_runtime e ≡ false))
initialize_adapters_lem_example =
    initialize_adapters_lem reference build json none inet configuration pool configuration-parse

-- No server can be made.
abbrev refusing : Platform
refusing = record reference { server_error = λ id ip port. some (codes "bind: Address in use") }

refusing_test : initialize_adapters refusing build pool ≡ not_initialized
unfolding initialize_adapters initialize_loop from_settings make_broker is_runtime ◌>>=◌
refusing_test = refl

abbrev pool_of_one : List (Slot reference)
pool_of_one = fresh reference 0 (usual ∷ [])

alone_running : run reference build files (codes "a" ∷ []) ≡ running pool_of_one
unfolding arguments open_config ◌>>=◌ run initialize_adapters initialize_loop from_settings
    make_broker run_all run_broker init
alone_running = refl

abbrev subscribed : Broker reference
subscribed =
    handle_subscribe reference 3 5 entries
      (record (init reference 0 []) { thread_joinable = true; listening = true })

abbrev last : Controlled reference
last = record (start reference pool_of_one) {
  should_stop = true;
  adapter_pool = record { id = 0; settings = usual; adapter = Adapter.broker subscribed } ∷ [];
}

-- In a round of the loop a client subscribes.
abbrev meanwhile : Controlled reference
meanwhile = record last { should_stop = false; in_round = true }

going : Proceeds reference (start reference pool_of_one) meanwhile
unfolding broker handle init
going = Proceeds.handled anywhere (Proceeds.entered Proceeds.begins refl refl) (
    Handles.here (Event.subscribes 3 5 entries) tt refl
      (record { joinable = refl; listens = refl; goes_on = refl }) refl)

-- A signal arrives then, and the queue is found empty.
managing : Manages reference (start reference pool_of_one) last
unfolding broker handle init wait_and_pop_all
managing = Manages.stopped (Proceeds.turned anywhere (Proceeds.signalled going) refl refl) refl refl

run-Sound_example :
    IsSound reference last.adapter_pool × ((last.should_stop ≡ true) ⊎ (last.initialized ≡ false))
run-Sound_example =
    run-Sound reference build files (codes "a" ∷ []) pool_of_one last alone_running managing

shutdown_adapters_lem_example :
    (shutdown_adapters reference last.adapter_pool
      ≡ some (all_stopped reference last.adapter_pool, []))
    × (exit_code reference build (running pool_of_one) last ≡ some 0)
shutdown_adapters_lem_example =
    shutdown_adapters_lem reference build files (codes "a" ∷ []) pool_of_one last alone_running
      managing

adapters_test :
    print_adapters inet (usual ∷ []) fresh_log
    ≡ printed (record fresh_log {
      buffer = codes "running 1 adapter:";
      out =
          line_begin
          ++ codes "1600000000.123: running 1 adapter:"
          ++ reset
          ++ line_end
          ++ line_begin
          ++ codes "                "
          ++ usual.name
          ++ white
          ++ codes " listening on 0.0.0.0:1883"
          ++ reset
          ++ reset
          ++ line_end
          ++ line_end;
      readings = 1;
    })
unfolding print_adapters print_each print_format expand print print_time print_empty_line decimal
    print_int ip_string ntop
adapters_test = refl

-- No connection has a remote end.
abbrev nowhere : Connection → Option Address
nowhere c = none

main-Answers_example :
    Answers reference build inet
      (arguments files (codes "a" ∷ []) [] false [])
      fresh_log
      (main reference build inet files (codes "a" ∷ []) fresh_log)
main-Answers_example =
    main-Answers reference build inet files (codes "a" ∷ []) fresh_log fresh-Clear

finish-Ends_example :
    Ends reference 0
      (last_line reference last.initialized ∷ [])
      fresh_log
      (finish reference last fresh_log)
finish-Ends_example =
    finish-Ends reference build inet files (codes "a" ∷ []) pool_of_one last fresh_log alone_running
      managing fresh-Clear

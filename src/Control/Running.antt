-- ===== src/Control/Running.antt =====
-- src/threads/control.cpp: from the start of the program to the end of the main thread's loop.
use octopusmq_cpp.Base.{
  ℕ, ◌≡◌, refl, subst, ◌⊎◌, Bool, true, false, Option, none, some, List, [], ◌∷◌, All,
  if◌then◌else◌, ltb, Text, is_empty, Bool-cases, Option-cases, inl, inr,
}
use octopusmq_cpp.Error.{Error, is_runtime, Result, returns, throws, ◌>>=◌}
use octopusmq_cpp.Network.{udp, tcp, tls, websocket, tls_websocket}
use octopusmq_cpp.Platform.{Platform}
use octopusmq_cpp.Broker.{Broker, init}
use octopusmq_cpp.Broker.Thread.{run_broker}
use octopusmq_cpp.Broker.Invariant.Sessions.{init-Inv}
use octopusmq_cpp.Broker.Invariant.{Inv, same-Inv}
use octopusmq_cpp.Adapter.{Settings, Specific, Adapter, broker, peer, null, Slot}
use octopusmq_cpp.Queue.{Queue}
use octopusmq_cpp.Control.{
  Files, Arguments, loaded, arguments, initialize_loop, run_all, run_first, run_adapter, ran, Start,
  running, helped, raised, not_initialized, initialized, initialize_adapters, begin, run,
}
use octopusmq_cpp.Settings.{slots}
use octopusmq_cpp.Adapter.Parsing.{Build}
use octopusmq_cpp.Adapter.Factory.{make_broker, adapter_of, from_settings}
use octopusmq_cpp.Control.Managing.{start, Controlled, Manages}
use octopusmq_cpp.Control.Managed.{IsServing, IsSound, Manages-Sound}

module _ (p : Platform) where
  module _ (build : Build) where
    -- An adapter before it runs.
    abbrev pub IsBuilt : Adapter p → Type 0
    IsBuilt (broker b) = Inv p b × (b.ioc_stopped ≡ false) × (b.thread_joinable ≡ false)
    IsBuilt peer = Unit
    IsBuilt null = Unit

    abbrev pub AllBuilt : List (Slot p) → Type 0
    AllBuilt pool = All (λ s. IsBuilt s.adapter) pool

    abbrev pub Yields {ℓ} : {A : Type ℓ} → (A → Type 0) → Result A → Type 0
    Yields P (returns a) = P a
    Yields P (throws e) = Unit

    make_broker-Sound :
        (id : ℕ) (s : Settings) (q : Queue p) → Yields (IsBuilt) (make_broker p build id s q)
    unfolding make_broker init
    make_broker-Sound id s q = elim (Bool-cases (ltb s.port 65536)) [
      | inl fits ↦ elim (Option-cases (p.server_error id s.phy.ip s.port)) [
        | inl e ↦ rw (make_broker, fits, e) (init-Inv p id q, refl, refl)
        | inr (text, e) ↦ rw (make_broker, fits, e) tt
      ]
      | inr big ↦ rw (make_broker, big) tt
    ]

    tls_only :
        (t : Bool) (r : Result (Adapter p)) (e : Error)
        → Yields (IsBuilt) r
        → Yields (IsBuilt) (if t then r else throws e)
    tls_only true r e h = h
    tls_only false r e h = tt

    peer_or_null : (t : Bool) → Yields (IsBuilt) (if t then returns peer else returns null)
    peer_or_null true = tt
    peer_or_null false = tt

    wrong_or_null : (t : Bool) (e : Error) → Yields (IsBuilt) (if t then throws e else returns null)
    wrong_or_null true e = tt
    wrong_or_null false e = tt

    adapter_of-Sound :
        (k : Specific) (id : ℕ) (s : Settings) (q : Queue p)
        → Yields (IsBuilt) (adapter_of p build k id s q)
    adapter_of-Sound (Specific.mqtt tcp role) id s q = make_broker-Sound id s q
    adapter_of-Sound (Specific.mqtt websocket role) id s q = make_broker-Sound id s q
    adapter_of-Sound (Specific.mqtt tls role) id s q =
        tls_only build.tls _ _ (make_broker-Sound id s q)
    adapter_of-Sound (Specific.mqtt tls_websocket role) id s q =
        tls_only build.tls _ _ (make_broker-Sound id s q)
    adapter_of-Sound (Specific.mqtt udp role) id s q = tt
    adapter_of-Sound (Specific.dds udp) id s q = peer_or_null build.dds
    adapter_of-Sound (Specific.dds tcp) id s q = peer_or_null build.dds
    adapter_of-Sound (Specific.dds tls) id s q = wrong_or_null build.dds _
    adapter_of-Sound (Specific.dds websocket) id s q = wrong_or_null build.dds _
    adapter_of-Sound (Specific.dds tls_websocket) id s q = wrong_or_null build.dds _

    put_adapter :
        (s : Slot p) (made : Result (Adapter p)) (rest : Result (List (Slot p)))
        → Yields (IsBuilt) made
        → Yields AllBuilt rest
        → Yields AllBuilt (do a ← made; ss ← rest; returns (record s { adapter = a } ∷ ss))
    unfolding ◌>>=◌
    put_adapter s (throws e) rest h k = tt
    put_adapter s (returns a) (throws e) h k = tt
    put_adapter s (returns a) (returns ss) h k = (h, k)

    pub initialize_loop-Sound :
        (pool : List (Slot p)) → Yields AllBuilt (initialize_loop p build pool)
    unfolding initialize_loop from_settings
    initialize_loop-Sound [] = tt
    initialize_loop-Sound (s ∷ ss) =
        put_adapter s _ _ (adapter_of-Sound s.settings.specific s.id s.settings [])
          (initialize_loop-Sound ss)

    abbrev Begins : Start p build → Type 0
    Begins (running pool) = IsSound p pool
    Begins _ = Unit

    if_else : (t : Bool) (a b : Start p build) → Begins a → Begins b → Begins (if t then a else b)
    if_else true a b h k = h
    if_else false a b h k = k

    -- What is left of a list, where there is one.
    abbrev Left : Option (List (Slot p)) → Type 0
    Left none = Unit
    Left (some pool) = IsSound p pool

    abbrev Kept : Option (Broker p) → Type 0
    Kept none = Unit
    Kept (some b) = IsServing p b

    run_broker-Kept : (b : Broker p) → IsBuilt (broker b) → Kept (run_broker p b)
    unfolding run_broker
    run_broker-Kept b h = go b.thread_joinable
      where
        go :
            (t : Bool)
            → Kept
                (if t then none else some (record b { thread_joinable = true; listening = true }))
        go true = tt
        go false = record {
          inv = same-Inv p b _ refl refl refl h.0;
          is_running = record { joinable = refl; listens = refl; goes_on = h.1 };
        }

    run_first-Left :
        (a : Adapter p) (s : Slot p) (rest : Option (List (Slot p)))
        → IsBuilt a
        → Left rest
        → Left (run_first p build (run_adapter p build a) s rest)
    run_first-Left null s rest h k = tt
    run_first-Left peer s none h k = tt
    run_first-Left peer s (some rest) h k = (tt, k)
    run_first-Left (broker b) s rest h k = ran_broker (run_broker p b) rest (run_broker-Kept b h) k
      where
        ran_broker :
            (o : Option (Broker p)) (rest : Option (List (Slot p)))
            → Kept o
            → Left rest
            → Left (run_first p build (elim o [ none ↦ none | some c ↦ some (broker c) ]) s rest)
        ran_broker none rest h k = tt
        ran_broker (some c) none h k = tt
        ran_broker (some c) (some rest) h k = (h, k)

    run_all-Left : (pool : List (Slot p)) → AllBuilt pool → Left (run_all p build pool)
    unfolding run_all
    run_all-Left [] h = tt
    run_all-Left (s ∷ ss) h = run_first-Left s.adapter s _ h.0 (run_all-Left ss h.1)

    ran-Begins : (o : Option (List (Slot p))) → Left o → Begins (ran p build o)
    ran-Begins none k = tt
    ran-Begins (some pool) k = k

    initialized-Begins :
        (r : Result (List (Slot p))) → Yields AllBuilt r → Begins (initialized p build r)
    initialized-Begins (returns pool) h = ran-Begins (run_all p build pool) (run_all-Left pool h)
    initialized-Begins (throws e) h = if_else (is_runtime e) not_initialized (raised e) tt tt

    begin-Begins : (a : Arguments) → Begins (begin p build a)
    unfolding initialize_adapters
    begin-Begins (Arguments.exits code) = tt
    begin-Begins (Arguments.raised e) = tt
    begin-Begins (loaded file daemon pool) = if_else (is_empty file) helped _ tt (
        if_else daemon (Start.exits 1) _ tt
          (initialized-Begins _ (initialize_loop-Sound (slots p 0 pool))))

    run-Begins : (files : Files) (args : List Text) → Begins (run p build files args)
    unfolding run
    run-Begins files args = begin-Begins (arguments files args [] false [])

    pub run-IsSound :
        (files : Files) (args : List Text) (pool : List (Slot p))
        → run p build files args ≡ running pool
        → IsSound p pool
    run-IsSound files args pool e = subst Begins e (run-Begins files args)

    -- Whatever the arguments and the configuration were: when adapters run, and their brokers then
    -- handle any events between any turns of the queue, also such in which an exception is thrown,
    -- then the loop of the main thread ends only after a signal or by an exception, and in the end
    -- no adapter of the pool is a null pointer, the thread of every broker still runs, no
    -- connection of any broker has two subscriptions with one topic filter, every stored topic
    -- filter is valid, and every connection that has logged in and not gone has metadata.
    pub run-Sound :
        (files : Files) (args : List Text) (pool : List (Slot p)) (d : Controlled p)
        → run p build files args ≡ running pool
        → Manages p (start p pool) d
        → IsSound p d.adapter_pool × ((d.should_stop ≡ true) ⊎ (d.initialized ≡ false))
    run-Sound files args pool d e m = Manages-Sound p m (run-IsSound files args pool e)

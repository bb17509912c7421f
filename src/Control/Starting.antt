-- ===== src/Control/Starting.antt =====
-- src/threads/control.cpp, `control::initialize_adapters`: the adapters of a configuration.
use octopusmq_cpp.Base.{
  ℕ, suc, ◌<◌, ◌≤◌, ◌≡◌, ◌⊎◌, refl, sym, subst, inl, inr, Bool, true, false, Option, none, some,
  List, [], ◌∷◌, All, Text, arith,
}
use octopusmq_cpp.Error.{Error, runtime, is_runtime, Result, returns, throws, ◌>>=◌}
use octopusmq_cpp.Network.{Protocol, mqtt, dds}
use octopusmq_cpp.Network.Phy.{Interface}
use octopusmq_cpp.Network.Addresses.{Inet}
use octopusmq_cpp.Platform.{Platform}
use octopusmq_cpp.Broker.{init}
use octopusmq_cpp.Broker.Thread.{run_broker}
use octopusmq_cpp.Json.{Json}
use octopusmq_cpp.Adapter.{Settings, Adapter, broker, peer, null, Slot}
use octopusmq_cpp.Adapter.Parsing.{Build}
use octopusmq_cpp.Adapter.Factory.{from_settings}
use octopusmq_cpp.Adapter.Built.{Comes, from_json-Comes}
use octopusmq_cpp.Settings.{slots, parse}
use octopusmq_cpp.Settings.Bindings.{Reads, parse_iff}
use octopusmq_cpp.Control.{
  initialize_loop, run_adapter, run_first, run_all, raised, not_initialized, running,
  initialize_adapters,
}

-- A port that the server of a broker does not take.
abbrev pub Unfit : ℕ → Settings → Type 0
Unfit id s = (s.protocol ≡ mqtt) × (65536 ≤ s.port)

module _ (p : Platform) where
  -- The adapter can be made: a server for MQTT takes the port, and can be made.
  abbrev pub Works : ℕ → Settings → Type 0
  Works id s = s.protocol ≡ mqtt → (s.port < 65536) × (p.server_error id s.phy.ip s.port ≡ none)

  -- The port fits, but the constructor of the server throws.
  abbrev pub Refused : ℕ → Settings → Type 0
  Refused id s =
      (s.protocol ≡ mqtt)
      × (s.port < 65536)
      × ((t : Text) × (p.server_error id s.phy.ip s.port ≡ some t))

  -- All adapters can be made, from the address of the first one on.
  abbrev pub AllWork : ℕ → List Settings → Type 0
  AllWork id [] = Unit
  AllWork id (s ∷ ss) = Works id s × AllWork (suc id) ss

  -- The first adapter that cannot be made is of a kind.
  abbrev pub First : (ℕ → Settings → Type 0) → ℕ → List Settings → Type 0
  First Bad id [] = ⊥
  First Bad id (s ∷ ss) = Bad id s ⊎ (Works id s × First Bad (suc id) ss)

  -- A new adapter of the protocol.
  abbrev fresh_adapter : Protocol → ℕ → Adapter p
  fresh_adapter mqtt id = broker (init p id [])
  fresh_adapter dds id = peer

  abbrev pub made : ℕ → List Settings → List (Slot p)
  made id [] = []
  made id (s ∷ ss) =
      record { id = id; settings = s; adapter = fresh_adapter s.protocol id } ∷ made (suc id) ss

  -- When it runs.
  abbrev running_adapter : Protocol → ℕ → Adapter p
  running_adapter mqtt id =
      broker (record (init p id []) { thread_joinable = true; listening = true })
  running_adapter dds id = peer

  abbrev pub fresh : ℕ → List Settings → List (Slot p)
  fresh id [] = []
  fresh id (s ∷ ss) =
      record { id = id; settings = s; adapter = running_adapter s.protocol id } ∷ fresh (suc id) ss

  module _ (build : Build) where
    abbrev Made : Settings → Type 0
    Made s = (id : ℕ) → Comes p id s [] (from_settings p build id (some s) [])

    run_all-made : (id : ℕ) (ss : List Settings) → run_all p build (made id ss) ≡ some (fresh id ss)
    unfolding run_all run_broker init
    run_all-made id [] = refl
    run_all-made id (s ∷ ss) = rw (run_all, run_all-made (suc id) ss) (runs s.protocol)
      where
        runs :
            (k : Protocol)
            → run_first p build
                (run_adapter p build (fresh_adapter k id))
                (record { id = id; settings = s; adapter = fresh_adapter k id })
                (some (fresh (suc id) ss))
              ≡ some (
                  record { id = id; settings = s; adapter = running_adapter k id }
                  ∷ fresh (suc id) ss)
        runs mqtt = refl
        runs dds = refl

    Made-fresh :
        (s : Settings) (id : ℕ)
        → Made s
        → Works id s
        → from_settings p build id (some s) [] ≡ returns (fresh_adapter s.protocol id)
    Made-fresh s id made works = elim (made id) [
      | inl (m, _, _, e) ↦
          subst (λ k. from_settings p build id (some s) [] ≡ returns (fresh_adapter k id)) (sym m) e
      | inr (inl (m, _, (t, e, _))) ↦ let ok = (works m).1 in absurd (cc)
      | inr (inr (inl (m, big, _))) ↦ let small = (works m).0 in absurd (omega arith)
      | inr (inr (inr (d, e))) ↦
          subst (λ k. from_settings p build id (some s) [] ≡ returns (fresh_adapter k id)) (sym d) e
    ]

    loop-Works :
        (id : ℕ) (ss : List Settings)
        → All Made ss
        → AllWork id ss
        → initialize_loop p build (slots p id ss) ≡ returns (made id ss)
    unfolding initialize_loop ◌>>=◌
    loop-Works id [] made works = refl
    loop-Works id (s ∷ ss) made works =
        rw (initialize_loop, Made-fresh s id made.0 works.0, loop-Works (suc id) ss made.1 works.1)
          refl

    -- Ends in an exception, which `initialize_adapters` catches or not.
    abbrev pub Throws {ℓ} : {A : Type ℓ} → Bool → Result A → Type ℓ
    Throws caught m = (e : Error) × (m ≡ throws e) × (is_runtime e ≡ caught)

    -- The kinds of adapters at which an exception ends the loop, caught or not.
    abbrev EndsAt : Bool → (ℕ → Settings → Type 0) → Type 0
    EndsAt caught Bad =
        (id : ℕ) (s : Settings)
        → Made s
        → Bad id s
        → Throws caught (from_settings p build id (some s) [])

    Refused-Throws : EndsAt true (Refused)
    unfolding is_runtime
    Refused-Throws id s made (m, small, (t, h)) = elim (made id) [
      | inl (_, _, e, _) ↦ absurd (cc)
      | inr (inl (_, _, (u, _, e))) ↦ (runtime u, e, refl)
      | inr (inr (inl (_, big, _))) ↦ absurd (omega arith)
      | inr (inr (inr (d, _))) ↦ absurd (cc)
    ]

    Unfit-Throws : EndsAt false Unfit
    Unfit-Throws id s made (m, big) = elim (made id) [
      | inl (_, small, _, _) ↦ absurd (omega arith)
      | inr (inl (_, small, _)) ↦ absurd (omega arith)
      | inr (inr (inl (_, _, thrown))) ↦ thrown
      | inr (inr (inr (d, _))) ↦ absurd (cc)
    ]

    later_Throws :
        (caught : Bool) (s : Slot p) (m : Result (Adapter p)) (rest : Result (List (Slot p)))
        {a : Adapter p}
        → m ≡ returns a
        → Throws caught rest
        → Throws caught (do made ← m; others ← rest; returns (record s { adapter = made } ∷ others))
    unfolding ◌>>=◌
    later_Throws caught s m rest h (e, k, o) = (e, rw (h, k) refl, o)

    loop-First :
        (caught : Bool) (Bad : ℕ → Settings → Type 0)
        → EndsAt caught Bad
        → (id : ℕ) (ss : List Settings) → All Made ss
        → First Bad id ss
        → Throws caught (initialize_loop p build (slots p id ss))
    unfolding initialize_loop ◌>>=◌
    loop-First caught Bad ends id [] made bad = absurd bad
    loop-First caught Bad ends id (s ∷ ss) made bad = elim bad [
      | inl here ↦ let (e, k, o) = ends id s made.0 here in (e, rw (initialize_loop, k) refl, o)
      | inr (works, later) ↦
          later_Throws caught (record { id = id; settings = s; adapter = null }) _ _
            (Made-fresh s id made.0 works) (loop-First caught Bad ends (suc id) ss made.1 later)
    ]

    module _ (j : Json) (interfaces : Option (List Interface)) where
      Reads-Made :
          (inet : Inet) (vs : List j.Value) (ss : List Settings)
          → Reads j interfaces build inet vs ss
          → All Made ss
      Reads-Made inet [] [] h = tt
      Reads-Made inet [] (s ∷ ss) h = absurd h
      Reads-Made inet (v ∷ vs) [] h = absurd h
      Reads-Made inet (v ∷ vs) (s ∷ ss) h =
          (λ id. from_json-Comes p build j interfaces v s id [] h.0, Reads-Made inet vs ss h.1)

      -- The pool of a configuration that could be read. If every adapter for MQTT has a port below
      -- 65536 and its server can be made, then every adapter is made anew, in the order of the
      -- pool, and all of them run. If at the first one for which that is not so the constructor of
      -- the server throws, as when the address is in use, then that is caught, none of the adapters
      -- runs, and `_initialized` stays false; and if its port does not fit, then the exception is
      -- not caught here.
      pub initialize_adapters_lem :
          (inet : Inet) (v : j.Value) (pool : List Settings)
          → parse j interfaces build inet v ≡ returns pool
          → (AllWork 0 pool → initialize_adapters p build pool ≡ running (fresh 0 pool))
            × (First Refused 0 pool → initialize_adapters p build pool ≡ not_initialized)
            × (First Unfit 0 pool
                → (e : Error) × (initialize_adapters p build pool ≡ raised e)
                  × (is_runtime e ≡ false))
      unfolding initialize_adapters
      initialize_adapters_lem inet v pool h =
          let (vs, _, _, reads, _) = (parse_iff j interfaces build inet v pool).0 h in
          let made = Reads-Made inet vs pool reads in
          (
            λ works.
                rw (initialize_adapters, loop-Works 0 pool made works, run_all-made 0 pool) refl,
            λ bad.
                let (e, k, o) = loop-First true _ Refused-Throws 0 pool made bad in
                rw (initialize_adapters, k, o) refl,
            λ bad.
                let (e, k, o) = loop-First false _ Unfit-Throws 0 pool made bad in
                (e, rw (initialize_adapters, k, o) refl, o),
          )

-- ===== src/Control/Main/Nulls.antt =====
-- src/threads/control.cpp: the calls of `run` for adapters that were made.
use octopusmq_cpp.Base.{◌≡◌, refl, subst, ◌⊎◌, inl, inr, Option, none, some, List, [], ◌∷◌}
use octopusmq_cpp.Error.{returns}
use octopusmq_cpp.Scope.Includes.{Any}
use octopusmq_cpp.Platform.{Platform}
use octopusmq_cpp.Broker.Thread.{run_broker}
use octopusmq_cpp.Adapter.{Adapter, broker, peer, null, Slot}
use octopusmq_cpp.Adapter.Parsing.{Build}
use octopusmq_cpp.Control.{initialize_loop, run_adapter, run_first, run_all}
use octopusmq_cpp.Control.Running.{IsBuilt, AllBuilt, Yields, initialize_loop-Sound}

module _ (p : Platform) where
  abbrev pub HasNull : List (Slot p) → Type 0
  HasNull pool = Any (λ s. s.adapter ≡ null) pool

  module _ (build : Build) where
    run_first-none :
        (a : Adapter p) (s : Slot p) (rest : Option (List (Slot p)))
        → IsBuilt p build a
        → run_first p build (run_adapter p build a) s rest ≡ none
        → (a ≡ null) ⊎ (rest ≡ none)
    unfolding run_broker
    run_first-none null s rest h e = inl refl
    run_first-none peer s none h e = inr refl
    run_first-none peer s (some rest) h e = absurd (cc)
    run_first-none (broker b) s none h e = inr refl
    run_first-none (broker b) s (some rest) h e = absurd (cc (rw (run_broker, h.2) at e))

    run_all-none :
        (pool : List (Slot p)) → AllBuilt p build pool → run_all p build pool ≡ none → HasNull pool
    unfolding run_all
    run_all-none [] h e = absurd (cc)
    run_all-none (s ∷ ss) h e = elim (run_first-none s.adapter s (run_all p build ss) h.0 e) [
      | inl here ↦ inl here
      | inr later ↦ inr (run_all-none ss h.1 later)
    ]

    -- For adapters that were made just before, only a null pointer stops the loop that runs them.
    pub stopped_by_null :
        (slots made : List (Slot p))
        → initialize_loop p build slots ≡ returns made
        → run_all p build made ≡ none
        → HasNull made
    stopped_by_null slots made h =
        run_all-none made
          (subst (Yields p build (AllBuilt p build)) h (initialize_loop-Sound p build slots))

-- ===== src/Control/Aborting.antt =====
-- src/threads/control.cpp, src/threads/mqtt/broker.cpp: an exception in the thread of a broker,
-- which ends the program.
use octopusmq_cpp.Base.{List}
use octopusmq_cpp.Scope.Includes.{Any}
use octopusmq_cpp.Platform.{Platform}
use octopusmq_cpp.Broker.{Broker}
use octopusmq_cpp.Adapter.{Adapter, broker, peer, null, Slot}
use octopusmq_cpp.Queue.{Queue}

module _ (p : Platform) where
  abbrev pub IsBroker : Adapter p → Type 0
  IsBroker (broker b) = Unit
  IsBroker peer = ⊥
  IsBroker null = ⊥

  -- Some adapter of the pool is a broker.
  abbrev pub HasBroker : List (Slot p) → Type 0
  HasBroker pool = Any (λ s. IsBroker s.adapter) pool

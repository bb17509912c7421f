-- ===== src/Queue.antt =====
-- src/network/adapter.hpp and src/network/adapter.cpp, class `message_queue`, and the dispatch of
-- `inject_publish` to the adapters of the pool.
pub mod Slots
pub mod Delivered
pub mod Turns
pub mod Bridge
mod Tests
use octopusmq_cpp.Base.{
  ℕ, Bool, true, false, Option, none, some, List, [], ◌∷◌, ◌++◌, ◌==◌, if◌then◌else◌, length,
}
use octopusmq_cpp.Network.{Address}
use octopusmq_cpp.Scope.{includes}
use octopusmq_cpp.Platform.{Platform, Connection}
use octopusmq_cpp.Message.{Message}
use octopusmq_cpp.Broker.{Outcome, done, threw, fault, ◌>>=◌, Broker}
use octopusmq_cpp.Broker.Delivery.{inject_publish}
use octopusmq_cpp.Adapter.{Adapter, broker, peer, null, Slot}

module _ (p : Platform) where
  abbrev pub Queue : Type 0
  Queue = List (ℕ × Message p)

  unfoldable pub push : ℕ → Message p → Queue → Queue
  push id m q = q ++ (id, m) ∷ []

  -- `wait_and_pop`, from when the wait ends: `none` where the queue is still empty then.
  unfoldable pub wait_and_pop : Queue → Option (ℕ × Message p) × Queue
  wait_and_pop [] = (none, [])
  wait_and_pop (item ∷ q) = (some item, q)

  module _ (peers : Connection → Option Address) where
    abbrev pub with_adapter : Slot p → Outcome (Broker p) → Outcome (Slot p)
    with_adapter s (done b) = done (record s { adapter = broker b })
    with_adapter s (threw b) = threw (record s { adapter = broker b })
    with_adapter s fault = fault

    -- `adapter.second->inject_publish(message)`; a null pointer is a fault, and a DDS peer does
    -- nothing.
    abbrev pub inject : Message p → Adapter p → Slot p → Outcome (Slot p)
    inject m (broker b) s = with_adapter s (inject_publish p peers m b)
    inject m peer s = done s
    inject m null s = fault

    -- `adapter.second->settings()->scope().includes(…)` and, if so, the call of `inject_publish`;
    -- a null pointer faults already at `settings()`.
    abbrev pub if_included : Message p → Adapter p → Slot p → Outcome (Slot p) → Outcome (Slot p)
    if_included m null s body = fault
    if_included m a s body = elim (includes s.settings.scope m.topic) [
      | none ↦ fault
      | some true ↦ body
      | some false ↦ done s
    ]

    -- One adapter of the loop over the pool, for one item of the queue.
    unfoldable pub offer : ℕ × Message p → Slot p → Outcome (Slot p)
    offer (id, m) s =
        if s.id == id then done s else if_included m s.adapter s (inject m s.adapter s)

    -- The loop over the pool goes on with the rest, unless it throws.
    abbrev pub chain :
        Outcome (Slot p) → List (Slot p) → Outcome (List (Slot p)) → Outcome (List (Slot p))
    chain (done s) ss (done ts) = done (s ∷ ts)
    chain (done s) ss (threw ts) = threw (s ∷ ts)
    chain (done s) ss fault = fault
    chain (threw s) ss rest = threw (s ∷ ss)
    chain fault ss rest = fault

    unfoldable pub offer_all : ℕ × Message p → List (Slot p) → Outcome (List (Slot p))
    offer_all item [] = done []
    offer_all item (s ∷ ss) = chain (offer item s) ss (offer_all item ss)

    abbrev pub resume :
        Outcome (List (Slot p))
        → Queue
        → (List (Slot p) → Outcome (Queue × List (Slot p)))
        → Outcome (Queue × List (Slot p))
    resume (done pool) q rest = rest pool
    resume (threw pool) q rest = threw (q, pool)
    resume fault q rest = fault

    -- The loop over the queue. An item is taken off after it was offered, so one at which an
    -- exception is thrown stays.
    unfoldable pub drain : Queue → List (Slot p) → Outcome (Queue × List (Slot p))
    drain [] pool = done ([], pool)
    drain (item ∷ q) pool = resume (offer_all item pool) (item ∷ q) (drain q)

    -- `wait_and_pop_all`, from when the wait ends; with the number that it returns if it does.
    unfoldable pub wait_and_pop_all : Queue → List (Slot p) → Outcome (Queue × List (Slot p)) × ℕ
    wait_and_pop_all [] pool = (done ([], pool), 0)
    wait_and_pop_all (item ∷ q) pool = (drain (item ∷ q) pool, length (item ∷ q))

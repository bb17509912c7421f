-- ===== src/Control/Managing.antt =====
-- src/threads/control.cpp, `control::message_queue_manager`: the main thread's loop around the
-- queue, while brokers handle events and signals arrive.
use octopusmq_cpp.Base.{◌≡◌, Bool, true, false, Option, List, [], ◌∷◌}
use octopusmq_cpp.Network.{Address}
use octopusmq_cpp.Platform.{Platform, Connection}
use octopusmq_cpp.Broker.{done, threw, Broker}
use octopusmq_cpp.Broker.Events.{Event, FromNetwork, handle}
use octopusmq_cpp.Broker.Thread.{IsRunning}
use octopusmq_cpp.Adapter.{broker, Slot}
use octopusmq_cpp.Queue.{Queue, wait_and_pop_all}

module _ (p : Platform) where
  -- The static members of `control` that the loop reads or writes, and whether the main thread is
  -- in a round of the loop.
  pub record Controlled : Type 0 where
    pub initialized : Bool
    pub should_stop : Bool
    pub in_round : Bool
    pub message_queue : Queue p
    pub adapter_pool : List (Slot p)

  -- When all adapters run.
  abbrev pub start : List (Slot p) → Controlled
  start pool = record {
    initialized = true;
    should_stop = false;
    in_round = false;
    message_queue = [];
    adapter_pool = pool;
  }

  -- An event at one broker of the pool, whose thread waits for it: the broker pushes to the queue
  -- of the program.
  pub data Handles (peers : Connection → Option Address) (q : Queue p)
      : List (Slot p) → Queue p → List (Slot p) → Type 0 where
    here :
        {b b' : Broker p} {s : Slot p} {ss : List (Slot p)} (e : Event p)
        → FromNetwork p e
        → s.adapter ≡ broker b
        → IsRunning p b
        → handle p peers e (record b { global_queue = q }) ≡ done b'
        → Handles peers q (s ∷ ss) b'.global_queue (record s { adapter = broker b' } ∷ ss)
    later :
        {s : Slot p} {ss ss' : List (Slot p)} {q' : Queue p}
        → Handles peers q ss q' ss'
        → Handles peers q (s ∷ ss) q' (s ∷ ss')

  -- An event, at some broker of the pool, whose handler throws: the exception leaves `_ioc.run()`
  -- and with it the function of the broker's thread, where nothing catches it, so `std::terminate`
  -- ends the program.
  pub data Terminates (peers : Connection → Option Address) (q : Queue p) (e : Event p)
      : List (Slot p) → Type 0 where
    here :
        {b b' : Broker p} {s : Slot p} {ss : List (Slot p)}
        → FromNetwork p e
        → s.adapter ≡ broker b
        → IsRunning p b
        → handle p peers e (record b { global_queue = q }) ≡ threw b'
        → Terminates peers q e (s ∷ ss)
    later :
        {s : Slot p} {ss : List (Slot p)} → Terminates peers q e ss → Terminates peers q e (s ∷ ss)

  -- The loop, as far as it goes on. A round begins when `_should_stop` is false; its wait ends at
  -- any time, after any events and signals; the remote ends may change between them.
  pub data Proceeds (c : Controlled) : Controlled → Type 0 where
    begins : Proceeds c c
    signalled : {d : Controlled} → Proceeds c d → Proceeds c (record d { should_stop = true })
    handled :
        {d : Controlled} {q : Queue p} {pool : List (Slot p)} (peers : Connection → Option Address)
        → Proceeds c d
        → Handles peers d.message_queue d.adapter_pool q pool
        → Proceeds c (record d { message_queue = q; adapter_pool = pool })
    entered :
        {d : Controlled}
        → Proceeds c d
        → d.in_round ≡ false
        → d.should_stop ≡ false
        → Proceeds c (record d { in_round = true })
    turned :
        {d : Controlled} {q : Queue p} {pool : List (Slot p)} (peers : Connection → Option Address)
        → Proceeds c d
        → d.in_round ≡ true
        → (wait_and_pop_all p peers d.message_queue d.adapter_pool).0 ≡ done (q, pool)
        → Proceeds c (record d { in_round = false; message_queue = q; adapter_pool = pool })

  -- The whole loop, to the state in which it has ended. `failed` is the branch of the `catch`.
  pub data Manages (c : Controlled) : Controlled → Type 0 where
    stopped :
        {d : Controlled} → Proceeds c d → d.in_round ≡ false → d.should_stop ≡ true → Manages c d
    failed :
        {d : Controlled} {q : Queue p} {pool : List (Slot p)} (peers : Connection → Option Address)
        → Proceeds c d
        → d.in_round ≡ true
        → (wait_and_pop_all p peers d.message_queue d.adapter_pool).0 ≡ threw (q, pool)
        → Manages c (record d {
          initialized = false;
          in_round = false;
          message_queue = q;
          adapter_pool = pool;
        })

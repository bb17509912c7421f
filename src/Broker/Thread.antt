-- ===== src/Broker/Thread.antt =====
-- src/threads/mqtt/broker.cpp: the thread of a broker.
pub mod Serving
use octopusmq_cpp.Base.{◌≡◌, true, false, Option, none, some, if◌then◌else◌}
use octopusmq_cpp.Platform.{Platform}
use octopusmq_cpp.Broker.{Broker}

module _ (p : Platform) where
  -- `worker`, up to where `_ioc.run()` waits for events.
  abbrev pub worker : Broker p → Broker p
  worker b = record b { listening = true }

  -- `run`, with what the new thread does first. `none` is the end of the program: an assignment to
  -- a thread that can be joined calls `std::terminate`.
  unfoldable pub run_broker : Broker p → Option (Broker p)
  run_broker b =
      if b.thread_joinable then none else some (worker (record b { thread_joinable = true }))

  -- `_ioc.stop()` and `_server->close()`.
  abbrev pub stop_ioc : Broker p → Broker p
  stop_ioc b = record b { ioc_stopped = true }

  abbrev pub close_server : Broker p → Broker p
  close_server b = record b { listening = false }

  -- `_thread.join()`, which waits for the end of `worker`: `_ioc.run()` returns when `_ioc` is
  -- stopped. `none` if it is not, where the call may never return, since connections may be open.
  abbrev pub join : Broker p → Option (Broker p)
  join b = if b.ioc_stopped then some (record b { thread_joinable = false }) else none

  -- `stop`.
  unfoldable pub stop_broker : Broker p → Option (Broker p)
  stop_broker b = if b.thread_joinable then join (close_server (stop_ioc b)) else some b

  -- The destructor, which ends the program where the thread can be joined.
  unfoldable pub destroy : Broker p → Option (Unit {0})
  destroy b = if b.thread_joinable then none else some tt

  -- The thread runs, and the server listens.
  pub record IsRunning (b : Broker p) : Type 0 where
    pub joinable : b.thread_joinable ≡ true
    pub listens : b.listening ≡ true
    pub goes_on : b.ioc_stopped ≡ false

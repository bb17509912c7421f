-- ===== src/Queue/Tests.antt =====
-- Runs of the message queue of src/network/adapter.cpp, and its theorems at concrete inputs.
use octopusmq_cpp.Base.{arith, Text, ◌≡◌, refl, ◌↔◌, List, [], ◌∷◌, All}
use octopusmq_cpp.Platform.Reference.{reference}
use octopusmq_cpp.Broker.{Outcome, done, each, Broker}
use octopusmq_cpp.Broker.Tests.{
  broker, anywhere, watched, firm, warm, packet, queued, watched-IsReachable,
}
use octopusmq_cpp.Broker.Publishing.{Passed}
use octopusmq_cpp.Adapter.{Slot, null}
use octopusmq_cpp.Settings.Tests.{usual}
use octopusmq_cpp.Queue.{Queue, push, offer, offer_all, drain, wait_and_pop_all}
use octopusmq_cpp.Scope.Tests.{kitchen}
use octopusmq_cpp.Platform.{exactly_once, min_qos}
use octopusmq_cpp.Broker.{publish_v3}
use octopusmq_cpp.Broker.Delivery.{handle_publish_v3, handle_publish_v5}
use octopusmq_cpp.Broker.Forwarding.{packet_v5}
use octopusmq_cpp.Queue.Bridge.{Reaches, publish-Reaches}
use octopusmq_cpp.Queue.Slots.{Pairs, Served, wait_and_pop_all_lem}
use octopusmq_cpp.Queue.Turns.{Delivered, turn_delivers}
use octopusmq_cpp.Queue.Delivered.{running, IsServable, served-Passed}

queue : Unit {0}
unfolding broker push offer offer_all drain wait_and_pop_all
queue = tt

-- A slot of the pool, and a queue with a message of another adapter and one of its own.
abbrev slot : Slot reference
slot = record { id = 7; settings = usual; adapter = null }

abbrev waiting : Queue reference
waiting = (4, queued) ∷ (7, queued) ∷ []

waiting-IsServable :
    All (IsServable reference anywhere slot (reference.by_topic watched.subs)) waiting
unfolding queue
waiting-IsServable = ((λ e. cc, watched-IsReachable), ((λ e. cc, watched-IsReachable), tt))

served-Passed_example :
    (b' : Broker reference) × (each
        (offer reference anywhere)
        waiting
        (running reference anywhere slot watched)
      ≡ done (running reference anywhere slot b'))
    × Passed reference watched ((1, packet) ∷ (2, packet) ∷ []) b'
unfolding queue
served-Passed_example = served-Passed reference anywhere slot watched waiting waiting-IsServable

-- A null pointer is no adapter.
null_test : (wait_and_pop_all reference anywhere waiting (slot ∷ [])).0 ≡ Outcome.fault
unfolding queue
null_test = refl

abbrev served : Slot reference
served = running reference anywhere slot watched

abbrev nothing : Queue reference
nothing = []

wait_and_pop_all_lem_example :
    (((wait_and_pop_all reference anywhere waiting (served ∷ [])).0 ≡ done ([], served ∷ []))
      ↔ ((nothing ≡ []) × Pairs (Served reference anywhere waiting) (served ∷ []) (served ∷ [])))
    × ((wait_and_pop_all reference anywhere waiting (served ∷ [])).1 ≡ 2)
wait_and_pop_all_lem_example =
    wait_and_pop_all_lem reference anywhere waiting [] (served ∷ []) (served ∷ [])

-- A broker of the settings 4, on which a client publishes.
abbrev origin : Broker reference
origin = record watched { settings = 4 }

publish-Reaches_example :
    ((a' : Broker reference) × (handle_publish_v3 reference anywhere 2 firm kitchen warm origin
        ≡ done a')
      × Reaches reference anywhere slot watched [] a'.global_queue kitchen
          (λ r. publish_v3 kitchen warm (min_qos r.qos_value exactly_once)))
    × ((props : Text)
        → (a' : Broker reference) × (handle_publish_v5 reference anywhere 2 firm kitchen warm props
              origin
            ≡ done a')
          × Reaches reference anywhere slot watched [] a'.global_queue kitchen
              (packet_v5 reference anywhere kitchen warm firm props))
unfolding queue
publish-Reaches_example =
    publish-Reaches reference anywhere origin watched slot 2 firm kitchen warm watched-IsReachable
      watched-IsReachable tt (λ e. omega arith) refl

turn_delivers_example :
    (pool' : List (Slot reference)) × (wait_and_pop_all reference anywhere waiting (served ∷ [])
      ≡ (done ([], pool'), 2))
    × Pairs (λ s t. Delivered reference anywhere waiting s s.adapter t) (served ∷ []) pool'
turn_delivers_example =
    turn_delivers reference anywhere waiting (served ∷ []) (waiting-IsServable, tt)

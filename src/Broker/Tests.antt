-- ===== src/Broker/Tests.antt =====
-- Runs of src/threads/mqtt/broker.cpp over the reference platform, and its theorems at concrete
-- inputs.
use octopusmq_cpp.Base.{
  ◌≡◌, refl, ◌≢◌, inl, inr, true, false, Option, none, some, List, [], ◌∷◌, codes, Text, All, arith,
}
use octopusmq_cpp.Network.{Address, v3, v5}
use octopusmq_cpp.Scope.Tests.{scope, home, below, kitchen, home-ValidFilter}
use octopusmq_cpp.Scope.Matching.{Overruns}
use octopusmq_cpp.Platform.{at_least_once, exactly_once, PublishOptions, Subscription, Connection}
use octopusmq_cpp.Platform.Reference.{reference}
use octopusmq_cpp.Message.{Message, published}
use octopusmq_cpp.Broker.{
  done, each, Broker, Packet, publish_v3, publish_v5, unsuback_id, failure, topic_filter_invalid,
  note, close_connection, share, init,
}
use octopusmq_cpp.Broker.Delivery.{
  log_sent, deliver_v3, deliver_v5, deliver_injected, handle_publish_v3, handle_publish_v5,
  inject_publish,
}
use octopusmq_cpp.Broker.Handlers.{
  SubscribeOptions, handle_subscribe, handle_subscribe_v5, subscribe_loop, erase_topics,
  handle_unsubscribe, handle_unsubscribe_v5, ErrorCode, handle_close, handle_disconnect,
  handle_disconnect_v5, handle_error,
}
use octopusmq_cpp.Broker.Events.{Event, handle, Reach}
use octopusmq_cpp.Broker.{suback_codes, failure}
use octopusmq_cpp.Broker.Subscribing.{answers}
use octopusmq_cpp.Broker.Requests.{Replied, requests_answered}
use octopusmq_cpp.Broker.Table.{nobody, table_of, changed_by}
use octopusmq_cpp.Broker.Table.Refines.{events_of, reachable-changed}
use octopusmq_cpp.Broker.Invariant.{Inv}
use octopusmq_cpp.Broker.Invariant.Sessions.{reachable-Inv}
use octopusmq_cpp.Broker.Publishing.{IsReachable, Passed}
use octopusmq_cpp.Broker.Forwarding.{
  Forwarded, handle_publish_v3-Forwarded, handle_publish_v5-Forwarded, inject_publish-Passed,
}
use octopusmq_cpp.Broker.Forwarding.Overrun.{publish_overrun, IsOverrun}
use octopusmq_cpp.Broker.Subscribing.{Entry}
use octopusmq_cpp.Broker.Subscribing.Again.{Grants, subscribe_again}
use octopusmq_cpp.Broker.{◌>>=◌}
use octopusmq_cpp.Broker.Handlers.{accept, handle_connect_v3, handle_connect_v5}
use octopusmq_cpp.Broker.Connecting.{Entered, session-Entered}
use octopusmq_cpp.Broker.Subscribing.Answered.{
  Subscribes, plain, with_options, handle_subscribe_lem,
}
use octopusmq_cpp.Broker.Leaving.{Left, handle_unsubscribe_lem, leaving-Left}

unfoldable pub broker : Unit {0}
unfolding scope each note close_connection share init published log_sent deliver_v3 deliver_v5
    deliver_injected handle_publish_v3 handle_publish_v5 inject_publish handle_subscribe
    subscribe_loop erase_topics handle_unsubscribe handle_unsubscribe_v5 handle
broker = tt

-- Every connection has a remote end.
abbrev pub anywhere : Connection → Option Address
anywhere c = some (record { ip = c; port = 1883 })

abbrev pub sub : Connection → Text → Subscription
sub c f = record {
  topic_filter = f;
  con = c;
  qos_value = at_least_once;
  retain_as_published = false;
  no_local = true;
}

-- Connection 1 is subscribed to `home/#`, and connection 2 to `home/+/temp`.
abbrev pub watched : Broker reference
watched = record {
  settings = 7;
  connections = λ c. true;
  meta = λ c. none;
  subs = sub 1 below ∷ sub 2 home ∷ [];
  thread_joinable = true;
  listening = true;
  ioc_stopped = false;
  global_queue = [];
  sent = [];
  log = [];
}

abbrev pub firm : PublishOptions
firm = record { qos = exactly_once; retain = true; dup = false }

abbrev pub warm : Text
warm = codes "21"

pub watched-IsReachable :
    All (IsReachable reference anywhere kitchen) (reference.by_topic watched.subs)
unfolding broker
watched-IsReachable = ((λ e. cc, λ e. cc), ((λ e. cc, λ e. cc), tt))

abbrev pub packet : Packet reference
packet = publish_v3 kitchen warm at_least_once

abbrev pub queued : Message reference
queued = published reference warm kitchen (reference.encode firm) v3 []

handle_publish_v3-Forwarded_example :
    (b' : Broker reference) × (handle_publish_v3 reference anywhere 2 firm kitchen warm watched
      ≡ done b')
    × Forwarded reference watched ((1, packet) ∷ (2, packet) ∷ []) queued b'
unfolding broker
handle_publish_v3-Forwarded_example =
    handle_publish_v3-Forwarded reference anywhere 2 firm kitchen warm watched watched-IsReachable

-- Connection 2 asked not to get its own messages.
handle_publish_v5-Forwarded_example :
    (b' : Broker reference) × (handle_publish_v5 reference anywhere 2 firm kitchen warm [] watched
      ≡ done b')
    × Forwarded reference watched
        ((1, publish_v5 kitchen warm at_least_once false []) ∷ [])
        (published reference warm kitchen (reference.encode firm) v5 [])
        b'
unfolding broker
handle_publish_v5-Forwarded_example =
    handle_publish_v5-Forwarded reference anywhere 2 firm kitchen warm [] watched
      watched-IsReachable

inject_publish-Passed_example :
    (b' : Broker reference) × (inject_publish reference anywhere queued watched ≡ done b')
    × Passed reference watched ((1, packet) ∷ (2, packet) ∷ []) b'
unfolding broker
inject_publish-Passed_example =
    inject_publish-Passed reference anywhere queued watched watched-IsReachable

-- A topic one level below those of `home/+/temp`.
abbrev deeper : Text
deeper = codes "home/kitchen/temp/max"

deeper-IsOverrun : IsOverrun reference anywhere deeper (sub 2 home)
unfolding broker
deeper-IsOverrun = (
  home-ValidFilter,
  Overruns.level (inl refl) (Overruns.level (inr refl) (Overruns.level (inl refl) Overruns.over)),
)

publish_overrun_example :
    ((c : Connection) (opts : PublishOptions) (contents : Text)
      → handle_publish_v3 reference anywhere c opts deeper contents watched ≢ done watched)
    × ((c : Connection) (opts : PublishOptions) (contents : Text) (props : Text)
        → handle_publish_v5 reference anywhere c opts deeper contents props watched ≢ done watched)
    × ((m : Message reference)
        → m.topic ≡ deeper
        → inject_publish reference anywhere m watched ≢ done watched)
publish_overrun_example =
    publish_overrun reference anywhere deeper watched watched (λ e. cc, omega arith)
      (inr (inl deeper-IsOverrun))

abbrev pub asked : SubscribeOptions
asked = record { qos = exactly_once; retain_as_published = false; no_local = false }

abbrev pub entries : List Entry
entries = (home, asked) ∷ (codes "a/#/b", asked) ∷ []

handle_subscribe_lem_example :
    Subscribes reference 3 5
      (plain reference 3)
      failure
      entries
      watched
      (handle_subscribe reference 3 5 entries watched)
    × Subscribes reference 3 5
        (with_options reference 3)
        topic_filter_invalid
        entries
        watched
        (handle_subscribe_v5 reference 3 5 entries watched)
handle_subscribe_lem_example = handle_subscribe_lem reference 3 5 entries watched

abbrev remote_end : Address
remote_end = record { ip = 3; port = 1883 }

session-Entered_example :
    ((b' : Broker reference) × ((accept reference anywhere 3 watched >>= λ a.
    done (handle_connect_v3 reference 3 warm a))
        ≡ done b')
      × Entered reference 3 remote_end warm v3 watched b')
    × ((b' : Broker reference) × ((accept reference anywhere 3 watched >>= λ a.
            done (handle_connect_v5 reference 3 warm a))
          ≡ done b')
        × Entered reference 3 remote_end warm v5 watched b')
session-Entered_example = session-Entered reference anywhere 3 remote_end warm watched refl

subscribe_again_example :
    Grants reference 2 9 asked watched (handle_subscribe reference 2 9 ((home, asked) ∷ []) watched)
    × Grants reference 2 9 asked watched
        (handle_subscribe_v5 reference 2 9 ((home, asked) ∷ []) watched)
unfolding broker
subscribe_again_example = subscribe_again reference 2 9 home asked watched home-ValidFilter refl

handle_unsubscribe_lem_example :
    ((handle_unsubscribe reference 1 6 (home ∷ []) watched).subs ≡ sub 1 below ∷ [])
    × ((handle_unsubscribe reference 1 6 (home ∷ []) watched).sent ≡ (1, unsuback_id 6) ∷ [])
    × (handle_unsubscribe_v5 reference 1 6 (home ∷ []) watched
        ≡ handle_unsubscribe reference 1 6 (home ∷ []) watched)
handle_unsubscribe_lem_example = handle_unsubscribe_lem reference 1 6 (home ∷ []) watched

leaving-Left_example :
    Left reference 1 watched (handle_close reference 1 watched)
    × Left reference 1 watched (handle_disconnect reference 1 watched)
    × Left reference 1 watched (handle_disconnect_v5 reference 1 watched)
    × ((ec : ErrorCode)
        → true ≡ true
        → Left reference 1 watched (handle_error reference 1 ec watched))
leaving-Left_example = leaving-Left reference 1 watched

abbrev pub after : Broker reference
after = handle_subscribe reference 3 5 entries (init reference 7 [])

unfoldable pub subscribing : Reach reference (init reference 7 []) after
unfolding handle
subscribing = Reach.step anywhere (Event.subscribes 3 5 entries) Reach.start refl

reachable-Inv_example : Inv reference after
reachable-Inv_example = reachable-Inv reference 7 [] after subscribing

reachable-changed_example :
    table_of reference after ≡ changed_by reference (events_of reference subscribing) nobody
reachable-changed_example = reachable-changed reference 7 [] after subscribing

requests_answered_example :
    Replied reference watched
      ((3, suback_codes 5 (answers failure entries)) ∷ [])
      (handle reference anywhere (Event.subscribes 3 5 entries) watched)
requests_answered_example =
    requests_answered reference anywhere (Event.subscribes 3 5 entries) watched refl

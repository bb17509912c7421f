-- ===== src/Broker.antt =====
-- src/threads/mqtt/broker.hpp and src/threads/mqtt/broker.cpp: the state of a broker, and the steps
-- that its handlers share.
pub mod Delivery
pub mod Handlers
pub mod Events
pub mod Keys
pub mod Invariant
pub mod Publishing
pub mod Forwarding
pub mod Subscribing
pub mod Connecting
pub mod Leaving
pub mod Requests
pub mod Logged
pub mod Thread
pub mod Table
pub mod Tests
use octopusmq_cpp.Base.{
  ℕ, ◌≡◌, refl, Bool, true, false, not, ◌&&◌, ◌||◌, Option, none, some, List, [], ◌∷◌, ◌++◌, ◌==◌,
  if◌then◌else◌, Text, length,
}
use octopusmq_cpp.Network.{Address, null_address, NetworkEvent, send, receive, Version, v3, v5}
use octopusmq_cpp.Platform.{Platform, Qos, PublishOptions, Connection, Subscription}
use octopusmq_cpp.Message.{Message, published}

-- How a call ends: with a state, by an exception that leaves the state as it is by then, or in
-- undefined behaviour.
pub data Outcome {ℓ} (S : Type ℓ) : Type ℓ where
  done : S → Outcome S
  threw : S → Outcome S
  fault : Outcome S

infixl 5 ◌>>=◌
abbrev pub ◌>>=◌ {ℓ} : {S : Type ℓ} → Outcome S → (S → Outcome S) → Outcome S
done s >>= f = f s
threw s >>= f = threw s
fault >>= f = fault

pub >>=-eq-done {ℓ} :
    {S : Type ℓ} (o : Outcome S) (f : S → Outcome S) {t : S}
    → (o >>= f) ≡ done t
    → (s : S) × (o ≡ done s) × (f s ≡ done t)
>>=-eq-done (done s) f h = (s, refl, h)
>>=-eq-done (threw s) f h = cc
>>=-eq-done fault f h = cc

-- `for (auto& x : xs) body(x)`.
unfoldable pub each {ℓ κ} : {A : Type ℓ} {S : Type κ} → (A → S → Outcome S) → List A → S → Outcome S
each f [] s = done s
each f (x ∷ xs) s = f x s >>= each f xs

-- What the log names: the packets of `packet_names`, a publish with the size of its contents.
pub data Action : Type 0 where
  connect connack puback pubrec pubrel pubcomp subscribe suback : Action
  unsubscribe unsuback pingreq pingresp disconnect : Action
  publish : ℕ → Action

pub data Entry : Type 0 where
  event : Address → Text → NetworkEvent → Action → Entry
  closed : Entry
  failed : Text → Address → Text → Entry

pub data SubackCode : Type 0 where
  granted : Qos → SubackCode
  failure topic_filter_invalid : SubackCode

-- The packets that a broker sends; the properties of a publish only to MQTT 5.
pub data Packet (p : Platform) : Type 0 where
  connack_accepted : Version → Packet p
  pong : Packet p
  publish_v3 : Text → Text → Qos → Packet p
  publish_v5 : Text → Text → Qos → (retain : Bool) → p.Props → Packet p
  suback_codes : ℕ → List SubackCode → Packet p
  unsuback_id : ℕ → Packet p

pub record Metadata : Type 0 where
  pub address : Address
  pub client_id : Text
  pub protocol_version : Version

-- `global_queue` is the queue that all adapters refer to, of pairs of an adapter's settings, by
-- address, and a message. `thread_joinable` and `ioc_stopped` are what these calls of `_thread` and
-- `_ioc` give, and `listening` is the state of `_server`. `sent` and `log` are what went out, in
-- order.
pub record Broker (p : Platform) : Type 0 where
  pub settings : ℕ
  pub thread_joinable : Bool
  pub listening : Bool
  pub ioc_stopped : Bool
  pub connections : Connection → Bool
  pub meta : Connection → Option Metadata
  pub subs : p.Index
  pub global_queue : List (ℕ × Message p)
  pub sent : List (Connection × Packet p)
  pub log : List Entry

abbrev pub update {κ} :
    {Value : Type κ} → (map : Connection → Value) → Connection → Value → Connection → Value
update map con new other = if other == con then new else map other

-- What `_meta[con]` makes where there is no entry.
abbrev pub no_metadata : Metadata
no_metadata = record { address = null_address; client_id = []; protocol_version = v3 }

abbrev pub or_new : Option Metadata → Metadata
or_new none = no_metadata
or_new (some m) = m

module _ (p : Platform) where
  -- `_meta[con]`, which enters a new entry where there is none.
  abbrev pub metadata_of : Connection → Broker p → Metadata
  metadata_of c b = or_new (b.meta c)

  abbrev pub set_metadata : Connection → Metadata → Broker p → Broker p
  set_metadata c m b = record b { meta = update b.meta c (some m) }

  -- `log::print_event` with the address and the client of `_meta[con]`.
  unfoldable pub note : Connection → NetworkEvent → Action → Broker p → Broker p
  note c dir a b = record b {
    meta = update b.meta c (some (metadata_of c b));
    log = b.log ++ event (metadata_of c b).address (metadata_of c b).client_id dir a ∷ [];
  }

  -- `con->…(…)`: a packet goes out.
  abbrev pub transmit : Connection → Packet p → Broker p → Broker p
  transmit c k b = record b { sent = b.sent ++ (c, k) ∷ [] }

  unfoldable pub close_connection : Connection → Broker p → Broker p
  close_connection c b = record b {
    connections = update b.connections c false;
    meta = update b.meta c none;
    subs = p.erase_connection c b.subs;
  }

  unfoldable pub share : Text → Text → PublishOptions → Version → p.Props → Broker p → Broker p
  share topic contents opts version props b = record b {
    global_queue =
        b.global_queue
        ++ (b.settings, published p contents topic (p.encode opts) version props) ∷ [];
  }

  -- A broker when its constructor ends.
  unfoldable pub init : ℕ → List (ℕ × Message p) → Broker p
  init settings queue = record {
    settings = settings;
    thread_joinable = false;
    listening = false;
    ioc_stopped = false;
    connections = λ c. false;
    meta = λ c. none;
    subs = p.no_subs;
    global_queue = queue;
    sent = [];
    log = [];
  }

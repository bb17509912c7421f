-- ===== src/Platform.antt =====
-- What src/threads/mqtt takes from outside the repository: the types of mqtt_cpp that are only
-- carried along, the encoding of publish options, whether a server can be made, and the container
-- of subscriptions, which the source declares as a boost::multi_index_container. All are parameters
-- of the model, with the documented behaviour that the broker relies on.
pub mod Reference
use octopusmq_cpp.Base.{
  ℕ, ◌≡◌, Bool, true, false, not, ◌&&◌, ◌||◌, Option, List, [], ◌∷◌, ◌++◌, ◌==◌, ltb, if◌then◌else◌,
  Text, text_eq,
}

-- `mqtt_cpp::qos`, and `std::min` over it.
pub data Qos : Type 0 where
  at_most_once at_least_once exactly_once : Qos

abbrev pub rank : Qos → ℕ
rank at_most_once = 0
rank at_least_once = 1
rank exactly_once = 2

abbrev pub min_qos : Qos → Qos → Qos
min_qos a b = if ltb (rank b) (rank a) then b else a

pub record PublishOptions : Type 0 where
  pub qos : Qos
  pub retain : Bool
  pub dup : Bool

-- A connection object, by its address.
abbrev pub Connection : Type 0
Connection = ℕ

-- src/threads/mqtt/broker.hpp, `broker::subscription`: `retain_as_published` is
-- `rap_value == rap::retain`, and `no_local` is `nl_value == nl::yes`.
pub record Subscription : Type 0 where
  pub topic_filter : Text
  pub con : Connection
  pub qos_value : Qos
  pub retain_as_published : Bool
  pub no_local : Bool

-- Equality of the composite key, which the third index keeps unique.
abbrev pub same_key : Subscription → Subscription → Bool
same_key s t = s.con == t.con && text_eq s.topic_filter t.topic_filter

abbrev pub holds_key : Subscription → List Subscription → Bool
holds_key s [] = false
holds_key s (t ∷ ts) = same_key s t || holds_key s ts

abbrev pub without : (Subscription → Bool) → List Subscription → List Subscription
without drop [] = []
without drop (s ∷ ss) = if drop s then without drop ss else s ∷ without drop ss

abbrev pub on_topic : Text → Subscription → Bool
on_topic t s = text_eq s.topic_filter t

abbrev pub on_connection : Connection → Subscription → Bool
on_connection c s = s.con == c

-- One list is the other with an element put in.
abbrev pub Inserted {ℓ} : {A : Type ℓ} → A → List A → List A → Type ℓ
Inserted {A} x xs ys = (l : List A) × (r : List A) × (xs ≡ l ++ r) × (ys ≡ l ++ x ∷ r)

pub record Platform : Type 1 where
  -- `mqtt_cpp::v5::properties`.
  pub Props : Type 0
  pub no_props : Props
  -- `std::uint8_t(publish_options)` and `publish_options(std::uint8_t)`.
  pub encode : PublishOptions → ℕ
  pub decode : ℕ → PublishOptions
  pub decode-encode : (o : PublishOptions) → decode (encode o) ≡ o
  -- What the constructor of a server throws for the adapter with these settings, by address, and
  -- for an address and a port: nothing, or a `boost::system::system_error`, which is a
  -- `std::runtime_error` with this text, as when the address is in use.
  pub server_error : ℕ → ℕ → ℕ → Option Text
  -- The container: its topic index as a list, `emplace`, `erase` of a topic, and `erase` of the
  -- equal range of a connection.
  pub Index : Type 0
  pub no_subs : Index
  pub by_topic : Index → List Subscription
  pub emplace : Subscription → Index → Index
  pub erase_topic : Text → Index → Index
  pub erase_connection : Connection → Index → Index
  pub by_topic-no_subs : by_topic no_subs ≡ []
  pub emplace_new :
      (s : Subscription) (i : Index)
      → holds_key s (by_topic i) ≡ false
      → Inserted s (by_topic i) (by_topic (emplace s i))
  pub emplace_old :
      (s : Subscription) (i : Index)
      → holds_key s (by_topic i) ≡ true
      → by_topic (emplace s i) ≡ by_topic i
  pub by_topic-erase_topic :
      (t : Text) (i : Index) → by_topic (erase_topic t i) ≡ without (on_topic t) (by_topic i)
  pub by_topic-erase_connection :
      (c : Connection) (i : Index)
      → by_topic (erase_connection c i) ≡ without (on_connection c) (by_topic i)

-- ===== src/Broker/Table.antt =====
-- What a broker promises to its clients, without the container of subscriptions: who is connected,
-- and with which options each connection is subscribed to each topic filter.
pub mod Lookup
pub mod Refines
pub mod Promise
pub mod Delivers
mod Tests
use octopusmq_cpp.Base.{
  ℕ, Bool, true, false, ◌&&◌, ◌||◌, Option, none, some, List, [], ◌∷◌, ◌==◌, if◌then◌else◌, Text,
  text_eq,
}
use octopusmq_cpp.Scope.{valid_topic_filter}
use octopusmq_cpp.Platform.{Platform, Connection, Subscription}
use octopusmq_cpp.Broker.{Broker, update}
use octopusmq_cpp.Broker.Events.{Event}
use octopusmq_cpp.Broker.Subscribing.{Entry}
use octopusmq_cpp.Broker.Subscribing.Answered.{plain, with_options}

abbrev pub Options : Type 0
Options = Connection → Text → Option Subscription

pub record Table : Type 0 where
  pub connections : Connection → Bool
  pub options : Options

abbrev pub nobody : Table
nobody = record { connections = λ c. false; options = λ c f. none }

-- The first subscription with a key.
abbrev pub lookup : List Subscription → Options
lookup [] c f = none
lookup (s ∷ ss) c f = if c == s.con && text_eq f s.topic_filter then some s else lookup ss c f

abbrev pub or_else : Option Subscription → Subscription → Option Subscription
or_else none s = some s
or_else (some old) s = some old

-- A subscription is put in where there is none with its key.
abbrev pub enter : Subscription → Options → Options
enter s t c f = if c == s.con && text_eq f s.topic_filter then or_else (t c f) s else t c f

abbrev pub enter_valid : List Subscription → Options → Options
enter_valid [] t = t
enter_valid (s ∷ ss) t = enter_valid ss (if valid_topic_filter s.topic_filter then enter s t else t)

abbrev pub is_listed : List Text → Text → Bool
is_listed [] f = false
is_listed (t ∷ ts) f = text_eq f t || is_listed ts f

abbrev pub remove : (Connection → Text → Bool) → Options → Options
remove drop t c f = if drop c f then none else t c f

abbrev pub of_entries : (Entry → Subscription) → List Entry → List Subscription
of_entries make [] = []
of_entries make (e ∷ es) = make e ∷ of_entries make es

abbrev pub leave : Connection → Table → Table
leave c t = record {
  connections = update t.connections c false;
  options = remove (λ d f. d == c) t.options;
}

module _ (p : Platform) where
  abbrev pub table_of : Broker p → Table
  table_of b = record { connections = b.connections; options = lookup (p.by_topic b.subs) }

  -- What each event does to the table.
  abbrev pub changed : Event p → Table → Table
  changed (Event.closes c) t = leave c t
  changed (Event.disconnects c) t = leave c t
  changed (Event.disconnects_v5 c) t = leave c t
  changed (Event.fails c ec) t = if t.connections c then leave c t else t
  changed (Event.connects c client_id) t = record t { connections = update t.connections c true }
  changed (Event.connects_v5 c client_id) t = record t { connections = update t.connections c true }
  changed (Event.subscribes c packet_id es) t = record t {
    options = enter_valid (of_entries (plain p c) es) t.options;
  }
  changed (Event.subscribes_v5 c packet_id es) t = record t {
    options = enter_valid (of_entries (with_options p c) es) t.options;
  }
  changed (Event.unsubscribes c packet_id ts) t = record t {
    options = remove (λ d f. is_listed ts f) t.options;
  }
  changed (Event.unsubscribes_v5 c packet_id ts) t = record t {
    options = remove (λ d f. is_listed ts f) t.options;
  }
  changed (Event.accepted c) t = t
  changed (Event.pings c) t = t
  changed (Event.acks a c) t = t
  changed (Event.acks_v5 a c) t = t
  changed (Event.publishes c opts topic contents) t = t
  changed (Event.publishes_v5 c opts topic contents props) t = t
  changed (Event.injects m) t = t

  abbrev pub changed_by : List (Event p) → Table → Table
  changed_by [] t = t
  changed_by (e ∷ es) t = changed_by es (changed e t)

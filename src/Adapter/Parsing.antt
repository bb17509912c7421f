-- ===== src/Adapter/Parsing.antt =====
-- src/network/adapter.cpp, src/network/mqtt/adapter.cpp and src/network/dds/adapter.cpp: settings
-- from JSON.
use octopusmq_cpp.Base.{
  ◌%◌, ◌^◌, Bool, true, false, Option, none, some, List, [], ◌∷◌, ◌++◌, if◌then◌else◌, Text, codes,
  text_eq,
}
use octopusmq_cpp.Error.{
  Error, missing_field, field_type, runtime, other, Result, returns, throws, ◌>>=◌,
}
use octopusmq_cpp.Network.{
  Protocol, mqtt, dds, Transport, udp, tcp, tls, websocket, tls_websocket, Role, broker, client,
}
use octopusmq_cpp.Network.Phy.{Interface, of_name}
use octopusmq_cpp.Scope.{Scope, from_string, from_list}
use octopusmq_cpp.Numerals.{decimal}
use octopusmq_cpp.Json.{Json}
use octopusmq_cpp.Adapter.Names.FieldName
use octopusmq_cpp.Adapter.Names.TransportName
use octopusmq_cpp.Adapter.Names.RoleName
use octopusmq_cpp.Adapter.{BaseSettings, Specific, Settings, name_append}

-- Which of `OCTOMQ_ENABLE_TLS` and `OCTOMQ_ENABLE_DDS` the build defines.
pub record Build : Type 0 where
  pub tls : Bool
  pub dds : Bool

abbrev pub or_throw {ℓ} : {A : Type ℓ} → Option A → Error → Result A
or_throw none e = throws e
or_throw (some a) e = returns a

-- A look-up in a map of names.
abbrev pub by_name {ℓ} : {A : Type ℓ} → Text → List (Text × A) → Option A
by_name k [] = none
by_name k ((n, a) ∷ m) = if text_eq k n then some a else by_name k m

abbrev pub roles : List (Text × Role)
roles = (RoleName.broker, broker) ∷ (RoleName.client, client) ∷ []

abbrev pub mqtt_transports : Build → List (Text × Transport)
mqtt_transports build =
    (TransportName.tcp, tcp)
    ∷ (TransportName.websocket, websocket)
    ∷ (if build.tls
        then (TransportName.tls, tls) ∷ (TransportName.tls_websocket, tls_websocket) ∷ []
        else [])

abbrev pub dds_transports : List (Text × Transport)
dds_transports = (TransportName.udp, udp) ∷ (TransportName.tcp, tcp) ∷ []

module _ (j : Json) (interfaces : Option (List Interface)) where
  -- The field of a JSON object, and its string.
  abbrev pub field : Text → j.Value → Result j.Value
  field name v = or_throw (j.find name v) (missing_field name)

  abbrev pub string_field : Text → j.Value → Result Text
  string_field name v = do item ← field name v; or_throw (j.get_string item) (field_type name)

  -- `get<std::vector<string>>`, which throws an exception of the JSON library.
  pub strings : List j.Value → Result (List Text)
  strings [] = returns []
  strings (v ∷ vs) = do
    s ← or_throw (j.get_string v) (other (codes "type must be string"))
    ss ← strings vs
    returns (s ∷ ss)

  abbrev pub scope_of_array : Option (List j.Value) → Result Scope
  scope_of_array none = throws (field_type FieldName.scope)
  scope_of_array (some vs) = do ss ← strings vs; from_list ss

  abbrev pub scope_of : Option Text → j.Value → Result Scope
  scope_of none v = scope_of_array (j.get_array v)
  scope_of (some s) v = from_string s

  -- The name of the adapter, and whether it was generated.
  abbrev pub name_of : Option j.Value → Text → Result (Text × Bool)
  name_of none generated = returns (generated, true)
  name_of (some v) generated = do
    name ← or_throw (j.get_string v) (field_type FieldName.name)
    returns (name, false)

  -- `octopus_mq::adapter_settings(protocol, json)`; `get<port_int>` keeps 32 bits.
  unfoldable pub base_settings : Protocol → Text → j.Value → Result BaseSettings
  base_settings protocol protocol_name v = do
    interface ← string_field FieldName.interface v
    phy ← of_name interfaces interface
    port_field ← field FieldName.port v
    number ← or_throw (j.get_unsigned port_field) (field_type FieldName.port)
    let port = number % 2 ^ 32
    scope_field ← field FieldName.scope v
    scope ← scope_of (j.get_string scope_field) scope_field
    (name, generated_name) ←
        name_of (j.find FieldName.name v)
          (codes "[" ++ phy.name ++ codes ":" ++ decimal port ++ codes "] " ++ protocol_name)
    returns (record {
      phy = phy;
      port = port;
      protocol = protocol;
      protocol_name = protocol_name;
      scope = scope;
      name = name;
      generated_name = generated_name;
    })

  -- `mqtt::adapter_settings(json)`; the map of field parsers is in the order of their names.
  unfoldable pub mqtt_settings : Build → Text → j.Value → Result Settings
  mqtt_settings build protocol_name v = do
    base ← base_settings mqtt protocol_name v
    role_str ← string_field FieldName.role v
    role ←
        or_throw (by_name role_str roles)
          (runtime (codes "unknown mqtt adapter role: " ++ role_str))
    let named = name_append role_str base
    transport_str ← string_field FieldName.transport v
    transport ←
        or_throw (by_name transport_str (mqtt_transports build))
          (runtime (codes "unsupported transport for mqtt adapter: " ++ transport_str))
    returns (record {
      base = name_append (codes "(" ++ transport_str ++ codes ")") named;
      specific = Specific.mqtt transport role;
    })

  -- `dds::adapter_settings(json)`.
  unfoldable pub dds_settings : Text → j.Value → Result Settings
  dds_settings protocol_name v = do
    base ← base_settings dds protocol_name v
    transport_str ← string_field FieldName.transport v
    transport ←
        or_throw (by_name transport_str dds_transports)
          (runtime (codes "unsupported transport for dds adapter: " ++ transport_str))
    returns (record { base = base; specific = Specific.dds transport })

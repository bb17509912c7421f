-- ===== src/Adapter/Factory.antt =====
-- src/network/adapter_factory.cpp: settings and adapters by their protocol.
use octopusmq_cpp.Base.{ℕ, Option, none, some, List, [], ◌∷◌, ltb, if◌then◌else◌, Text, codes}
use octopusmq_cpp.Error.{
  Error, adapter_not_initialized, unknown_protocol, adapter_transport, runtime, other, Result,
  returns, throws, ◌>>=◌,
}
use octopusmq_cpp.Network.{Protocol, mqtt, dds, udp, tcp, tls, websocket, tls_websocket}
use octopusmq_cpp.Network.Phy.{Interface}
use octopusmq_cpp.Platform.{Platform}
use octopusmq_cpp.Message.{Message}
use octopusmq_cpp.Broker.{init}
use octopusmq_cpp.Json.{Json}
use octopusmq_cpp.Adapter.Names.FieldName
use octopusmq_cpp.Adapter.Names.ProtocolName
use octopusmq_cpp.Adapter.{Settings, Specific, Adapter, broker, peer, null}
use octopusmq_cpp.Adapter.Parsing.{
  Build, by_name, or_throw, string_field, mqtt_settings, dds_settings,
}

abbrev pub protocols : List (Text × Protocol)
protocols = (ProtocolName.mqtt, mqtt) ∷ (ProtocolName.dds, dds) ∷ []

module _ (j : Json) (interfaces : Option (List Interface)) (build : Build) where
  abbrev pub settings_of : Protocol → Text → j.Value → Result Settings
  settings_of mqtt name v = mqtt_settings j interfaces build name v
  settings_of dds name v =
      if build.dds then dds_settings j interfaces name v else throws (unknown_protocol name)

  -- `adapter_settings_factory::from_json`.
  unfoldable pub from_json : j.Value → Result Settings
  from_json v = do
    name ← string_field j interfaces FieldName.protocol v
    protocol ← or_throw (by_name name protocols) (unknown_protocol name)
    settings_of protocol name v

-- `boost::bad_lexical_cast`, which is no `std::runtime_error`.
abbrev pub bad_lexical_cast : Error
bad_lexical_cast =
    other (codes "bad lexical cast: source type value could not be interpreted as target")

module _ (p : Platform) (build : Build) where
  -- The constructor of a broker: `lexical_cast<uint16_t>` of the port throws where it does not fit,
  -- which is no `std::runtime_error`, and so may the constructor of the server then, which is one.
  unfoldable pub make_broker : ℕ → Settings → List (ℕ × Message p) → Result (Adapter p)
  make_broker id s queue =
      if ltb s.port 65536
      then elim (p.server_error id s.phy.ip s.port) [
        | none ↦ returns (broker (init p id queue))
        | some text ↦ throws (runtime text)
      ]
      else throws bad_lexical_cast

  abbrev wrong_transport : Settings → Result (Adapter p)
  wrong_transport s = throws (adapter_transport s.name s.protocol_name)

  abbrev pub adapter_of : Specific → ℕ → Settings → List (ℕ × Message p) → Result (Adapter p)
  adapter_of (Specific.mqtt tcp role) id s queue = make_broker id s queue
  adapter_of (Specific.mqtt websocket role) id s queue = make_broker id s queue
  adapter_of (Specific.mqtt tls role) id s queue =
      if build.tls then make_broker id s queue else wrong_transport s
  adapter_of (Specific.mqtt tls_websocket role) id s queue =
      if build.tls then make_broker id s queue else wrong_transport s
  adapter_of (Specific.mqtt udp role) id s queue = wrong_transport s
  adapter_of (Specific.dds udp) id s queue = if build.dds then returns peer else returns null
  adapter_of (Specific.dds tcp) id s queue = if build.dds then returns peer else returns null
  adapter_of (Specific.dds transport) id s queue =
      if build.dds then wrong_transport s else returns null

  -- `adapter_interface_factory::from_settings`; `none` is a null pointer.
  unfoldable pub from_settings : ℕ → Option Settings → List (ℕ × Message p) → Result (Adapter p)
  from_settings id none queue = throws adapter_not_initialized
  from_settings id (some s) queue = adapter_of s.specific id s queue

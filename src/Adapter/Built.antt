-- ===== src/Adapter/Built.antt =====
-- src/network/adapter_factory.cpp: what the factories build for settings that were read.
use octopusmq_cpp.Base.{
  ◌<◌, ◌≤◌, ◌⊎◌, ℕ, ◌≡◌, refl, sym, ◌∙◌, subst, inl, inr, Bool, true, false, Bool-cases,
  Option-cases, All, if◌then◌else◌, [], ◌∷◌, Option, none, some, List, ltb, Text, text_eq, arith,
}
use octopusmq_cpp.Error.{Error, runtime, is_runtime, Result, returns, throws, >>=-eq-returns}
use octopusmq_cpp.Network.{
  Protocol, mqtt, dds, Transport, udp, tcp, tls, websocket, tls_websocket, Role,
}
use octopusmq_cpp.Network.Phy.{Interface}
use octopusmq_cpp.Platform.{Platform}
use octopusmq_cpp.Message.{Message}
use octopusmq_cpp.Broker.{init}
use octopusmq_cpp.Json.{Json}
use octopusmq_cpp.Adapter.{BaseSettings, name_append, Settings, Specific, Adapter, broker, peer}
use octopusmq_cpp.Adapter.Parsing.{
  Build, or_throw, by_name, mqtt_transports, dds_transports, base_settings, mqtt_settings,
  dds_settings,
}
use octopusmq_cpp.Adapter.Factory.{
  from_json, settings_of, adapter_of, from_settings, make_broker, bad_lexical_cast,
}

-- The settings that a build can read: MQTT over TLS only with TLS, and DDS only with DDS.
abbrev pub Supported : Build → Protocol → Specific → Type 0
Supported build protocol (Specific.mqtt tcp role) = protocol ≡ mqtt
Supported build protocol (Specific.mqtt websocket role) = protocol ≡ mqtt
Supported build protocol (Specific.mqtt tls role) = (protocol ≡ mqtt) × (build.tls ≡ true)
Supported build protocol (Specific.mqtt tls_websocket role) = (protocol ≡ mqtt) × (build.tls ≡ true)
Supported build protocol (Specific.mqtt udp role) = ⊥
Supported build protocol (Specific.dds udp) = (protocol ≡ dds) × (build.dds ≡ true)
Supported build protocol (Specific.dds tcp) = (protocol ≡ dds) × (build.dds ≡ true)
Supported build protocol (Specific.dds transport) = ⊥

-- A look-up that succeeds gives one of the values of the map.
by_name-All {ℓ} :
    {A : Type ℓ} (P : A → Type 0) (k : Text) (m : List (Text × A)) (a : A)
    → All (λ x. P x.1) m
    → by_name k m ≡ some a
    → P a
by_name-All P k [] a h e = absurd (cc)
by_name-All P k ((n, b) ∷ m) a h e = here (text_eq k n) (by_name-All P k m a h.1) e
  where
    here :
        (t : Bool)
        → (by_name k m ≡ some a → P a)
        → (if t then some b else by_name k m) ≡ some a
        → P a
    here true rest e = let same : b ≡ a = cc in subst P same h.0
    here false rest e = rest e

pub returns_with {ℓ} :
    {A : Type ℓ} (P : A → Type 0) (a b : A) → P a → ◌≡◌ {A = Result A} (returns a) (returns b) → P b
returns_with P a b h e = let same : a ≡ b = cc in subst P same h

or_throw-eq-returns {ℓ} :
    {A : Type ℓ} (o : Option A) (e : Error) {a : A} → or_throw o e ≡ returns a → o ≡ some a
or_throw-eq-returns none e h = absurd (cc)
or_throw-eq-returns (some b) e h = cc

mqtt_transports-Supported :
    (build : Build) (name : Text) (role : Role) (t : Transport)
    → by_name name (mqtt_transports build) ≡ some t
    → Supported build mqtt (Specific.mqtt t role)
mqtt_transports-Supported build name role t =
    by_name-All (λ t. Supported build mqtt (Specific.mqtt t role)) name (mqtt_transports build) t
      (
        refl,
        (
          refl,
          elim (Bool-cases build.tls) [
            | inl on ↦ rw on ((refl, on), ((refl, on), tt))
            | inr off ↦ rw off tt
          ],
        ),
      )

dds_transports-Supported :
    (build : Build) (name : Text) (t : Transport)
    → build.dds ≡ true
    → by_name name dds_transports ≡ some t
    → Supported build dds (Specific.dds t)
dds_transports-Supported build name t h =
    by_name-All (λ t. Supported build dds (Specific.dds t)) name dds_transports t
      ((refl, h), ((refl, h), tt))

name_append-protocol : (a : Text) (s : BaseSettings) → (name_append a s).protocol ≡ s.protocol
unfolding name_append
name_append-protocol a s = ground arith

module _ (j : Json) (interfaces : Option (List Interface)) where
  base_settings-protocol :
      (protocol : Protocol) (name : Text) (v : j.Value) (s : BaseSettings)
      → base_settings j interfaces protocol name v ≡ returns s
      → s.protocol ≡ protocol
  unfolding base_settings
  base_settings-protocol protocol name v s h =
      let (interface, _, h1) = >>=-eq-returns _ _ h in
      let (phy, _, h2) = >>=-eq-returns _ _ h1 in
      let (port_field, _, h3) = >>=-eq-returns _ _ h2 in
      let (number, _, h4) = >>=-eq-returns _ _ h3 in
      let (scope_field, _, h5) = >>=-eq-returns _ _ h4 in
      let (scope, _, h6) = >>=-eq-returns _ _ h5 in
      let (named, _, h7) = >>=-eq-returns _ _ h6 in
      returns_with (λ x. x.protocol ≡ protocol) _ s refl h7

module _ (j : Json) (interfaces : Option (List Interface)) (build : Build) where
  abbrev Reads : Settings → Type 0
  Reads s = Supported build s.protocol s.specific

  mqtt_settings-Supported :
      (name : Text) (v : j.Value) (s : Settings)
      → mqtt_settings j interfaces build name v ≡ returns s
      → Reads s
  unfolding mqtt_settings
  mqtt_settings-Supported name v s h =
      let (base, based, h1) = >>=-eq-returns _ _ h in
      let (role_str, _, h2) = >>=-eq-returns _ _ h1 in
      let (role, _, h3) = >>=-eq-returns _ _ h2 in
      let (transport_str, _, h4) = >>=-eq-returns _ _ h3 in
      let (transport, found, h5) = >>=-eq-returns _ _ h4 in
      let protocol =
        name_append-protocol _ _
        ∙ name_append-protocol role_str base
        ∙ base_settings-protocol j interfaces mqtt name v base based in
      returns_with Reads _ s
        (subst (λ p. Supported build p (Specific.mqtt transport role)) (sym protocol)
          (mqtt_transports-Supported build transport_str role transport
            (or_throw-eq-returns _ _ found)))
        h5

  dds_settings-Supported :
      (name : Text) (v : j.Value) (s : Settings)
      → build.dds ≡ true
      → dds_settings j interfaces name v ≡ returns s
      → Reads s
  unfolding dds_settings
  dds_settings-Supported name v s on h =
      let (base, based, h1) = >>=-eq-returns _ _ h in
      let (transport_str, _, h2) = >>=-eq-returns _ _ h1 in
      let (transport, found, h3) = >>=-eq-returns _ _ h2 in
      returns_with Reads _ s
        (subst (λ p. Supported build p (Specific.dds transport))
          (sym (base_settings-protocol j interfaces dds name v base based))
          (dds_transports-Supported build transport_str transport on
            (or_throw-eq-returns _ _ found)))
        h3

  settings_of-Supported :
      (protocol : Protocol) (name : Text) (v : j.Value) (s : Settings)
      → settings_of j interfaces build protocol name v ≡ returns s
      → Reads s
  settings_of-Supported mqtt name v s h = mqtt_settings-Supported name v s h
  settings_of-Supported dds name v s h = elim (Bool-cases build.dds) [
    | inl on ↦ dds_settings-Supported name v s on (ground arith)
    | inr off ↦ absurd (ground arith)
  ]

  pub from_json-Supported :
      (v : j.Value) (s : Settings) → from_json j interfaces build v ≡ returns s → Reads s
  unfolding from_json
  from_json-Supported v s h =
      let (name, _, h1) = >>=-eq-returns _ _ h in
      let (protocol, _, h2) = >>=-eq-returns _ _ h1 in settings_of-Supported protocol name v s h2

-- What comes of settings: a new broker if the port fits and the server can be made, the exception
-- of the server if not, an exception that is no `std::runtime_error` if the port does not fit, or a
-- peer.
abbrev pub Comes :
    (p : Platform) → ℕ → Settings → List (ℕ × Message p) → Result (Adapter p) → Type 0
Comes p id s queue made =
    ((s.protocol ≡ mqtt)
      × (s.port < 65536)
      × (p.server_error id s.phy.ip s.port ≡ none)
      × (made ≡ returns (broker (init p id queue))))
    ⊎ (((s.protocol ≡ mqtt)
          × (s.port < 65536)
          × ((t : Text) × (p.server_error id s.phy.ip s.port ≡ some t)
              × (made ≡ throws (runtime t))))
        ⊎ (((s.protocol ≡ mqtt)
              × (65536 ≤ s.port)
              × ((e : Error) × (made ≡ throws e) × (is_runtime e ≡ false)))
            ⊎ ((s.protocol ≡ dds) × (made ≡ returns peer))))

module _ (p : Platform) (build : Build) where
  make_broker-Comes :
      (id : ℕ) (s : Settings) (queue : List (ℕ × Message p))
      → s.protocol ≡ mqtt
      → Comes p id s queue (make_broker p build id s queue)
  unfolding make_broker is_runtime
  make_broker-Comes id s queue m = elim (Bool-cases (ltb s.port 65536)) [
    | inl fits ↦ elim (Option-cases (p.server_error id s.phy.ip s.port)) [
      | inl e ↦ inl (m, ground arith, e, rw (make_broker, fits, e) refl)
      | inr (text, e) ↦ inr (inl (m, ground arith, (text, e, rw (make_broker, fits, e) refl)))
    ]
    | inr big ↦
        inr (inr (inl (m, ground arith, (bad_lexical_cast, rw (make_broker, big) refl, refl))))
  ]

  Supported-Comes :
      (k : Specific) (id : ℕ) (s : Settings) (queue : List (ℕ × Message p))
      → Supported build s.protocol k
      → Comes p id s queue (adapter_of p build k id s queue)
  unfolding make_broker
  Supported-Comes (Specific.mqtt tcp role) id s queue h = make_broker-Comes id s queue h
  Supported-Comes (Specific.mqtt websocket role) id s queue h = make_broker-Comes id s queue h
  Supported-Comes (Specific.mqtt tls role) id s queue h = rw h.1 (make_broker-Comes id s queue h.0)
  Supported-Comes (Specific.mqtt tls_websocket role) id s queue h =
      rw h.1 (make_broker-Comes id s queue h.0)
  Supported-Comes (Specific.mqtt udp role) id s queue h = absurd h
  Supported-Comes (Specific.dds udp) id s queue h = inr (inr (inr (h.0, rw h.1 refl)))
  Supported-Comes (Specific.dds tcp) id s queue h = inr (inr (inr (h.0, rw h.1 refl)))
  Supported-Comes (Specific.dds tls) id s queue h = absurd h
  Supported-Comes (Specific.dds websocket) id s queue h = absurd h
  Supported-Comes (Specific.dds tls_websocket) id s queue h = absurd h

  -- For settings that were read from a configuration, the factory of adapters never gives a null
  -- pointer and never finds the transport to be wrong: an adapter for MQTT is a new broker on the
  -- common queue if its port is below 65536 and its server can be made, a `std::runtime_error` with
  -- the text of the server's exception ends its construction if the server cannot, and an exception
  -- that is no runtime error if the port is not; an adapter for DDS is a peer.
  pub from_json-Comes :
      (j : Json) (interfaces : Option (List Interface)) (v : j.Value) (s : Settings) (id : ℕ)
      (queue : List (ℕ × Message p))
      → from_json j interfaces build v ≡ returns s
      → Comes p id s queue (from_settings p build id (some s) queue)
  unfolding from_settings
  from_json-Comes j interfaces v s id queue h =
      Supported-Comes s.specific id s queue (from_json-Supported j interfaces build v s h)

-- ===== src/Settings/Typed.antt =====
-- src/core/settings.cpp: what a configuration that was read holds.
use octopusmq_cpp.Base.{◌≡◌, Option, List, [], ◌∷◌, All}
use octopusmq_cpp.Error.{returns}
use octopusmq_cpp.Network.Phy.{Interface}
use octopusmq_cpp.Network.Addresses.{Inet}
use octopusmq_cpp.Json.{Json}
use octopusmq_cpp.Adapter.{Settings}
use octopusmq_cpp.Adapter.Parsing.{Build}
use octopusmq_cpp.Adapter.Built.{Supported}
use octopusmq_cpp.Adapter.Typed.{AllWords, IsTyped, from_json-IsTyped}
use octopusmq_cpp.Settings.{parse}
use octopusmq_cpp.Settings.Bindings.{Reads, parse_iff}

module _ (j : Json) (interfaces : Option (List Interface)) (build : Build) where
  -- The settings of one adapter, with what its class adds.
  abbrev pub IsWellTyped : Settings → Type 0
  IsWellTyped s = IsTyped s.base × Supported build s.protocol s.specific

  Reads-IsWellTyped :
      (inet : Inet) (vs : List j.Value) (ss : List Settings)
      → AllWords interfaces
      → Reads j interfaces build inet vs ss
      → All IsWellTyped ss
  Reads-IsWellTyped inet [] [] w h = tt
  Reads-IsWellTyped inet [] (s ∷ ss) w h = absurd h
  Reads-IsWellTyped inet (v ∷ vs) [] w h = absurd h
  Reads-IsWellTyped inet (v ∷ vs) (s ∷ ss) w h =
      (from_json-IsTyped j interfaces w build v s h.0, Reads-IsWellTyped inet vs ss w h.1)

  -- Whatever the configuration file holds: if it can be read, and the system's addresses have 32
  -- bits, then of every adapter in the pool the port and the address have 32 bits; the address is
  -- null exactly if the interface is `*`, and has a netmask if it is not; every filter of the scope
  -- is valid; and the class of the settings, its transport, and the options of the build fit the
  -- protocol.
  pub parse-IsWellTyped :
      (inet : Inet) (v : j.Value) (pool : List Settings)
      → AllWords interfaces
      → parse j interfaces build inet v ≡ returns pool
      → All IsWellTyped pool
  parse-IsWellTyped inet v pool w h =
      let (vs, _, _, reads, _) = (parse_iff j interfaces build inet v pool).0 h in
      Reads-IsWellTyped inet vs pool w reads

-- ===== src/Settings.antt =====
-- src/core/settings.cpp: the pool from the configuration file.
pub mod Bindings
pub mod Typed
pub mod Tests
use octopusmq_cpp.Base.{
  ℕ, suc, Bool, true, false, not, Option, none, some, List, [], ◌∷◌, ◌++◌, if◌then◌else◌, Text,
  codes, is_empty, length,
}
use octopusmq_cpp.Error.{
  Error, adapter_binding, runtime, what, is_runtime, Result, returns, throws, ◌>>=◌, ◌>>◌, require,
}
use octopusmq_cpp.Network.Phy.{Interface}
use octopusmq_cpp.Platform.{Platform}
use octopusmq_cpp.Json.{Json}
use octopusmq_cpp.Network.Addresses.{Inet}
use octopusmq_cpp.Adapter.{Settings, compare_binding, binding_name, Adapter, null, Slot}
use octopusmq_cpp.Adapter.Parsing.{Build, or_throw}
use octopusmq_cpp.Adapter.Factory.{from_json}

-- The loop of `check_bindings`: the last element against those before it.
unfoldable pub check_against : Inet → Settings → List Settings → Result (Unit {0})
check_against inet back [] = returns tt
check_against inet back (s ∷ ss) =
    let rest = check_against inet back ss in
    if compare_binding back s.phy.ip s.port
    then (do name ← binding_name inet back; throws (adapter_binding name back.name s.name))
    else rest

module _ (j : Json) (interfaces : Option (List Interface)) (build : Build) (inet : Inet) where
  -- The loop of `parse`, over the settings of the pool so far.
  unfoldable pub parse_loop : List j.Value → List Settings → Result (List Settings)
  parse_loop [] pool = returns pool
  parse_loop (v ∷ vs) pool = do
    s ← from_json j interfaces build v
    check_against inet s pool
    parse_loop vs (pool ++ s ∷ [])

  abbrev pub adapters_of : Option j.Value → Option (List j.Value)
  adapters_of none = none
  adapters_of (some v) = j.get_array v

  -- `settings::parse`, for an empty pool.
  unfoldable pub parse : j.Value → Result (List Settings)
  parse v = do
    list ←
        or_throw (adapters_of (j.find (codes "adapters") v))
          (runtime (codes "configuration file does not contain 'adapters' list."))
    require (not (is_empty list))
        (runtime (codes "configuration file contains an empty 'adapters' list."))
    parse_loop list []

  -- `catch (const std::runtime_error &re)`.
  abbrev pub wrap : Result (List Settings) → Result (List Settings)
  wrap (returns pool) = returns pool
  wrap (throws e) =
      if is_runtime e then throws (runtime (codes "settings error: " ++ what e)) else throws e

  -- `settings::load`; `file` is what opening and parsing it gives, the errors of both included.
  unfoldable pub load : Text → Result (Result j.Value) → Result (List Settings)
  load file_name file =
      if is_empty file_name
      then throws (runtime (codes "empty configuration file name."))
      else (do parsed ← file; wrap (do v ← parsed; parse v))

-- The slots of the pool: settings at their places in it, with no adapter yet.
abbrev pub slots : (p : Platform) → ℕ → List Settings → List (Slot p)
slots p id [] = []
slots p id (s ∷ ss) = record { id = id; settings = s; adapter = null } ∷ slots p (suc id) ss

-- ===== src/Adapter.antt =====
-- src/network/adapter.hpp, src/network/adapter.cpp, src/network/mqtt/adapter.hpp and
-- src/network/dds/adapter.hpp: the settings of adapters, the adapters that run, and the pool that
-- pairs them.
pub mod Names
pub mod Parsing
pub mod Factory
pub mod Built
pub mod Typed
use octopusmq_cpp.Base.{ℕ, Bool, ◌||◌, ◌&&◌, ◌==◌, ◌++◌, Option, List, if◌then◌else◌, Text, codes}
use octopusmq_cpp.Network.{Protocol, Transport, Role, loopback_ip}
use octopusmq_cpp.Network.Phy.{Interface, Phy, of_name}
use octopusmq_cpp.Network.Addresses.{Inet, to_string}
use octopusmq_cpp.Error.{Result, returns, ◌>>=◌}
use octopusmq_cpp.Scope.{Scope}
use octopusmq_cpp.Platform.{Platform}
use octopusmq_cpp.Broker.{Broker}

-- `octopus_mq::adapter_settings`.
pub record BaseSettings : Type 0 where
  pub phy : Phy
  pub port : ℕ
  pub protocol : Protocol
  pub protocol_name : Text
  pub scope : Scope
  pub name : Text
  pub generated_name : Bool

-- What the derived classes add.
pub data Specific : Type 0 where
  mqtt : Transport → Role → Specific
  dds : Transport → Specific

pub record Settings : Type 0 where
  pub base : BaseSettings
  pub open base use *
  pub specific : Specific

-- The setters of `adapter_settings`.
unfoldable pub set_phy : Phy → BaseSettings → BaseSettings
set_phy phy s = record s { phy = phy }

unfoldable pub set_phy_name : Option (List Interface) → Text → BaseSettings → Result BaseSettings
set_phy_name interfaces name s = do phy ← of_name interfaces name; returns (record s { phy = phy })

unfoldable pub set_port : ℕ → BaseSettings → BaseSettings
set_port port s = record s { port = port }

unfoldable pub set_scope : Scope → BaseSettings → BaseSettings
set_scope scope s = record s { scope = scope }

unfoldable pub set_adapter_name : Text → BaseSettings → BaseSettings
set_adapter_name name s = record s { name = name }

-- Only works with generated names.
unfoldable pub name_append : Text → BaseSettings → BaseSettings
name_append appendix s =
    if s.generated_name then record s { name = s.name ++ codes " " ++ appendix } else s

unfoldable pub compare_binding : Settings → ℕ → ℕ → Bool
compare_binding s ip port =
    ((ip == s.phy.ip) || (ip == loopback_ip) || (s.phy.ip == loopback_ip)) && port == s.port

-- `binging_name`.
unfoldable pub binding_name : Inet → Settings → Result Text
binding_name inet s = to_string inet (record { ip = s.phy.ip; port = s.port })

module _ (p : Platform) where
  -- What `adapter_iface_ptr` points to: an object of a class derived from `adapter_interface`, or
  -- nothing.
  pub data Adapter : Type 0 where
    broker : Broker p → Adapter
    peer null : Adapter

  -- An element of the pool; `id` is the address of its settings.
  pub record Slot : Type 0 where
    pub id : ℕ
    pub settings : Settings
    pub adapter : Adapter

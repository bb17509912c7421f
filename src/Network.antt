-- ===== src/Network.antt =====
-- src/network/network.hpp and src/network/network.cpp: the types that the components share, and
-- addresses.
pub mod Phy
pub mod Addresses
mod Tests
use octopusmq_cpp.Base.{ℕ, Bool, ◌&&◌, ◌==◌}

pub data Protocol : Type 0 where
  mqtt dds : Protocol

pub data Transport : Type 0 where
  udp tcp tls websocket tls_websocket : Transport

pub data NetworkEvent : Type 0 where
  send receive : NetworkEvent

pub data Role : Type 0 where
  broker client : Role

pub data Version : Type 0 where
  v3 v5 : Version

abbrev pub null_ip : ℕ
null_ip = 0

-- 127.0.0.1 in reverse byte order.
abbrev pub loopback_ip : ℕ
loopback_ip = 0x0100007f

abbrev pub null_port : ℕ
null_port = 0

pub record Address : Type 0 where
  pub ip : ℕ
  pub port : ℕ

abbrev pub null_address : Address
null_address = record { ip = null_ip; port = null_port }

pub is_null : Address → Bool
is_null a = a.ip == null_ip && a.port == null_port

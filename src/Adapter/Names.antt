-- ===== src/Adapter/Names.antt =====
-- src/network/adapter.hpp, namespace `adapter`: the names in a configuration.
pub mod FieldName
pub mod TransportName
pub mod ProtocolName
pub mod RoleName

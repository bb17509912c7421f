-- ===== src/Adapter/Names/ProtocolName.antt =====
-- src/network/adapter.hpp, namespace `adapter::protocol_name`.
use octopusmq_cpp.Base.{Text, codes}

abbrev pub mqtt : Text
mqtt = codes "mqtt"

abbrev pub dds : Text
dds = codes "dds"

-- ===== src/Adapter/Names/FieldName.antt =====
-- src/network/adapter.hpp, namespace `adapter::field_name`.
use octopusmq_cpp.Base.{Text, codes}

abbrev pub interface : Text
interface = codes "interface"

abbrev pub protocol : Text
protocol = codes "protocol"

abbrev pub port : Text
port = codes "port"

abbrev pub transport : Text
transport = codes "transport"

abbrev pub scope : Text
scope = codes "scope"

abbrev pub domain : Text
domain = codes "domain"

abbrev pub role : Text
role = codes "role"

abbrev pub qos : Text
qos = codes "qos"

abbrev pub name : Text
name = codes "name"

abbrev pub security : Text
security = codes "security"

abbrev pub certificate : Text
certificate = codes "certificate"

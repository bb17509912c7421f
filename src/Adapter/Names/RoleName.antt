-- ===== src/Adapter/Names/RoleName.antt =====
-- src/network/adapter.hpp, namespace `adapter::role_name`.
use octopusmq_cpp.Base.{Text, codes}

abbrev pub broker : Text
broker = codes "broker"

abbrev pub client : Text
client = codes "client"

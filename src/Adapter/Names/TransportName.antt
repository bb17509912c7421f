-- ===== src/Adapter/Names/TransportName.antt =====
-- src/network/adapter.hpp, namespace `adapter::transport_name`.
use octopusmq_cpp.Base.{Text, codes}

abbrev pub udp : Text
udp = codes "udp"

abbrev pub tcp : Text
tcp = codes "tcp"

abbrev pub tls : Text
tls = codes "tls"

abbrev pub websocket : Text
websocket = codes "websocket"

abbrev pub tls_websocket : Text
tls_websocket = codes "tls/websocket"

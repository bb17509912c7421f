-- ===== src/Settings/Tests.antt =====
-- src/core/settings.cpp and src/network at concrete configurations, with their theorems.
use octopusmq_cpp.Base.{
  ℕ, ◌≡◌, refl, ◌↔◌, true, false, none, some, List, [], ◌∷◌, ◌++◌, codes, Text, is_empty, All,
}
use octopusmq_cpp.Error.{adapter_binding, throws, returns, ◌>>=◌}
use octopusmq_cpp.Network.{mqtt, loopback_ip, tcp, broker}
use octopusmq_cpp.Network.Phy.{of_name}
use octopusmq_cpp.Network.Addresses.Reference.{inet, ntop}
use octopusmq_cpp.Scope.Tests.{scope}
use octopusmq_cpp.Platform.Reference.{reference}
use octopusmq_cpp.Json.Reference.{
  json, Value, text, number, array, object, item, field, end, no_more,
}
use octopusmq_cpp.Adapter.{Settings, Specific, name_append, compare_binding, binding_name}
use octopusmq_cpp.Network.Addresses.{to_string}
use octopusmq_cpp.Numerals.{decimal, print_int, of_uint32}
use octopusmq_cpp.Adapter.Parsing.{Build, base_settings, mqtt_settings}
use octopusmq_cpp.Adapter.Factory.{from_json, from_settings}
use octopusmq_cpp.Adapter.Built.{Comes, from_json-Comes}
use octopusmq_cpp.Settings.{check_against, parse_loop, adapters_of, parse}
use octopusmq_cpp.Settings.Typed.{IsWellTyped, parse-IsWellTyped}
use octopusmq_cpp.Settings.Bindings.{Apart, Reads, parse_iff}

settings : Unit {0}
unfolding scope of_name name_append compare_binding decimal base_settings mqtt_settings from_json
    check_against binding_name to_string ntop print_int of_uint32 parse_loop parse ◌>>=◌
settings = tt

abbrev pub build : Build
build = record { tls = false; dds = false }

abbrev adapter : ℕ → Value
adapter port = object (
    field (codes "protocol") (text (codes "mqtt")) (
      field (codes "interface") (text (codes "*")) (
        field (codes "port") (number port) (
          field (codes "scope") (text (codes "#")) (
            field (codes "role") (text (codes "broker"))
              (field (codes "transport") (text (codes "tcp")) no_more))))))

abbrev read : ℕ → Text → Settings
read port digits = record {
  base = record {
    phy = record { ip = 0; netmask = none; name = codes "*" };
    port = port;
    protocol = mqtt;
    protocol_name = codes "mqtt";
    scope = record { is_global_wildcard = true; filters = [] };
    name = codes "[*:" ++ digits ++ codes "] mqtt broker (tcp)";
    generated_name = true;
  };
  specific = Specific.mqtt tcp broker;
}

abbrev pub usual : Settings
usual = read 1883 (codes "1883")

abbrev pub other : Settings
other = read 99999 (codes "99999")

adapter_test : from_json json none build (adapter 1883) ≡ returns usual
unfolding settings
adapter_test = refl

abbrev pub configuration : Value
configuration =
    object
      (field (codes "adapters") (array (item (adapter 1883) (item (adapter 99999) end))) no_more)

abbrev pub pool : List Settings
pool = usual ∷ other ∷ []

collision_test :
    parse_loop json none build inet (adapter 1883 ∷ adapter 1883 ∷ []) []
    ≡ throws (adapter_binding (codes "0.0.0.0:1883") usual.name usual.name)
unfolding settings
collision_test = refl

pub configuration-parse : parse json none build inet configuration ≡ returns pool
unfolding settings
configuration-parse = refl

parse_iff_example : (parse json none build inet configuration ≡ returns pool) ↔ (
    (vs : List Value) × (adapters_of json none build inet
        (json.find (codes "adapters") configuration)
      ≡ some vs)
    × (is_empty vs ≡ false)
    × Reads json none build inet vs pool
    × Apart pool)
parse_iff_example = parse_iff json none build inet configuration pool

abbrev local : Settings
local = record usual {
  base = record usual.base { phy = record { ip = loopback_ip; netmask = none; name = codes "lo" } };
}

from_json-Comes_example :
    Comes reference 4 usual [] (from_settings reference build 4 (some usual) [])
from_json-Comes_example =
    from_json-Comes reference build json none (adapter 1883) usual 4 [] adapter_test

parse-IsWellTyped_example : All (IsWellTyped json none build) (usual ∷ other ∷ [])
parse-IsWellTyped_example =
    parse-IsWellTyped json none build inet configuration pool tt configuration-parse

-- ===== src/Network/Tests.antt =====
-- src/network/network.cpp at concrete addresses and interfaces, with its theorems.
use octopusmq_cpp.Base.{◌≡◌, refl, none, some, List, [], ◌∷◌, Text, codes, arith}
use octopusmq_cpp.Error.{other, returns, throws, ◌>>=◌}
use octopusmq_cpp.Numerals.{decimal, print_int, of_uint32, to_uint32, stoi}
use octopusmq_cpp.Network.{Address, null_address, null_ip}
use octopusmq_cpp.Network.Phy.{Interface, Phy, phy_name, first_named, phy_addresses}
use octopusmq_cpp.Network.Phy.Changes.{not_found, set_name, set_ip}
use octopusmq_cpp.Network.Addresses.{ip_string, to_string, address_string, to_ip}
use octopusmq_cpp.Network.Addresses.Reference.{inet, pton, ntop}
use octopusmq_cpp.Network.Addresses.RoundTrip.{address_string-to_string}

network : Unit {0}
unfolding to_string address_string to_ip decimal print_int of_uint32 to_uint32 stoi pton ntop ◌>>=◌
    set_name set_ip phy_name ip_string phy_addresses first_named
network = tt

abbrev home : Address
home = record { ip = 16777343; port = 1883 }

strings_test :
    (to_string inet home ≡ returns (codes "127.0.0.1:1883"))
    × (to_string inet (record home { port = 4294967295 }) ≡ returns (codes "127.0.0.1:-1"))
    × (address_string inet (codes "7.0.0.0:") null_address ≡ returns (record { ip = 7; port = 0 }))
    × (address_string inet (codes "1883") null_address ≡ returns (record { ip = 0; port = 1883 }))
    × (address_string inet (codes "1234567") home ≡ returns home)
    × (address_string inet (codes "a:b") home ≡ throws (other (codes "stoi")))
unfolding network
strings_test = (refl, refl, refl, refl, refl, refl)

address_string-to_string_example :
    (s : Text) × (to_string inet home ≡ returns s)
    × (address_string inet s null_address ≡ returns home)
address_string-to_string_example =
    address_string-to_string inet home null_address (omega arith) (omega arith)

abbrev interfaces : List Interface
interfaces = record { name = some (codes "lo"); ip = some 16777343; netmask = 255 } ∷ []

abbrev lo : Phy
lo = record { ip = 16777343; netmask = some 255; name = codes "lo" }

phy_test :
    (set_name (some interfaces) (codes "*") lo
      ≡ (record lo { ip = null_ip; name = codes "*" }, none))
    × (set_name (some interfaces) (codes "lo") (record lo { ip = 1; name = [] }) ≡ (lo, none))
    × (set_ip inet (some interfaces) 16777343 (record lo { ip = 1; name = [] }) ≡ (lo, none))
    × (set_ip inet (some interfaces) 5 lo
        ≡ (record lo { ip = 5; name = [] }, some (not_found (codes "5.0.0.0"))))
unfolding network
phy_test = (refl, refl, refl, refl)

-- ===== src/Network/Phy/Changes.antt =====
-- src/network/network.cpp, class `phy`: the setters, with the object as it is when they throw.
use octopusmq_cpp.Base.{
  ℕ, Option, none, some, List, [], ◌++◌, ◌==◌, if◌then◌else◌, Text, codes, text_eq, is_empty,
}
use octopusmq_cpp.Error.{Error, runtime, Result, returns, throws}
use octopusmq_cpp.Network.{null_ip}
use octopusmq_cpp.Network.Phy.{Interface, Phy, any_interface, phy_name, phy_addresses}
use octopusmq_cpp.Network.Addresses.{Inet, ip_string}

-- What `phy_addresses` leaves: it throws before it changes anything.
abbrev pub kept : Result Phy → Phy → Phy × Option Error
kept (throws e) before = (before, some e)
kept (returns ph) before = (ph, none)

abbrev pub not_found : Text → Error
not_found name = runtime (codes "interface not found: " ++ name)

abbrev pub tested : Result Phy → Phy → Phy × Option Error
tested (throws e) before = (before, some e)
tested (returns ph) before = (ph, if ph.ip == null_ip then some (not_found ph.name) else none)

-- `phy::name(name)`.
unfoldable pub set_name : Option (List Interface) → Text → Phy → Phy × Option Error
set_name is name ph =
    let named = record ph { name = name } in
    if text_eq name any_interface
    then (record named { ip = null_ip }, none)
    else tested (phy_addresses is named) named

-- The setter for a name that is moved.
unfoldable pub set_moved_name : Option (List Interface) → Text → Phy → Phy × Option Error
set_moved_name is name ph =
    let named = record ph { name = name } in
    if text_eq name any_interface
    then (record named { ip = null_ip }, none)
    else tested (phy_addresses is named) named

-- The name for an address, empty where the list cannot be read.
abbrev pub read_name : Option (List Interface) → ℕ → Text
read_name none ip = []
read_name (some is) ip = phy_name is ip

-- `phy::ip(ip)`.
unfoldable pub set_ip : Inet → Option (List Interface) → ℕ → Phy → Phy × Option Error
set_ip inet is ip ph =
    let moved = record ph { ip = ip } in
    let named = record moved { name = read_name is ip } in
    if ip == null_ip
    then (moved, none)
    else (if is_empty named.name
        then (named, some (not_found (ip_string inet ip)))
        else kept (phy_addresses is named) named)

-- ===== src/Network/Phy.antt =====
-- src/network/network.cpp, class `phy`. The list of `getifaddrs` is an argument, `none` where the
-- call fails.
pub mod Changes
use octopusmq_cpp.Base.{
  ℕ, ◌-◌, ◌^◌, Option, none, some, List, [], ◌∷◌, ◌++◌, ◌==◌, if◌then◌else◌, Text, codes, text_eq,
}
use Prim.Native.Nat.{bit_or}
use octopusmq_cpp.Network.{null_ip}
use octopusmq_cpp.Error.{runtime, Result, returns, throws}

-- An entry of the list: its name, and its address if it is of the family AF_INET; an entry without
-- a name or an address has none here.
pub record Interface : Type 0 where
  pub name : Option Text
  pub ip : Option ℕ
  pub netmask : ℕ

-- `_netmask` is `none` until code has set it.
pub record Phy : Type 0 where
  pub ip : ℕ
  pub netmask : Option ℕ
  pub name : Text

abbrev pub any_interface : Text
any_interface = codes "*"

-- `phy()`.
abbrev pub any_phy : Phy
any_phy = record { ip = null_ip; netmask = none; name = any_interface }

unfoldable pub phy_name : List Interface → ℕ → Text
phy_name [] ip = []
phy_name (i ∷ is) ip =
    let rest = phy_name is ip in
    elim i.name [
      | none ↦ rest
      | some name ↦ elim i.ip [ none ↦ rest | some a ↦ if ip == a then name else rest ]
    ]

-- The first entry of that name with an address.
unfoldable pub first_named : List Interface → Text → Option (ℕ × ℕ)
first_named [] name = none
first_named (i ∷ is) name =
    let rest = first_named is name in
    elim i.name [
      | none ↦ rest
      | some n ↦ elim i.ip [
        | none ↦ rest
        | some a ↦ if text_eq name n then some (a, i.netmask) else rest
      ]
    ]

abbrev pub set_addresses : Option (ℕ × ℕ) → Phy → Phy
set_addresses none ph = ph
set_addresses (some (ip, mask)) ph = record ph { ip = ip; netmask = some mask }

unfoldable pub phy_addresses : Option (List Interface) → Phy → Result Phy
phy_addresses none ph = throws (runtime (codes "cannot read system network interface list."))
phy_addresses (some is) ph = returns (set_addresses (first_named is ph.name) ph)

abbrev pub found : Result Phy → Result Phy
found (throws e) = throws e
found (returns ph) =
    if ph.ip == null_ip
    then throws (runtime (codes "interface not found: " ++ ph.name))
    else returns ph

-- `phy(name)`.
unfoldable pub of_name : Option (List Interface) → Text → Result Phy
of_name is name =
    let fresh : Phy = record { ip = null_ip; netmask = none; name = name } in
    if text_eq name any_interface then returns fresh else found (phy_addresses is fresh)

-- The constructor from a name that is moved, which does the same.
unfoldable pub of_moved_name : Option (List Interface) → Text → Result Phy
of_moved_name is name =
    let fresh : Phy = record { ip = null_ip; netmask = none; name = name } in
    if text_eq name any_interface then returns fresh else found (phy_addresses is fresh)

-- `phy(ip)`; the name stays empty where the list cannot be read.
unfoldable pub of_ip : Option (List Interface) → ℕ → Phy
of_ip none ip = record { ip = ip; netmask = none; name = [] }
of_ip (some is) ip = record { ip = ip; netmask = none; name = phy_name is ip }

-- `_ip | ~_netmask` on 32 bits; `none` where the netmask was never set.
unfoldable pub broadcast_address : Phy → Option ℕ
broadcast_address ph = elim ph.netmask [
  | none ↦ none
  | some m ↦ some (bit_or ph.ip (2 ^ 32 - 1 - m))
]

-- ===== src/Network/Addresses.antt =====
-- src/network/network.hpp and src/network/network.cpp, class `address`: its strings.
pub mod RoundTrip
pub mod Reference
use octopusmq_cpp.Base.{
  ℕ, suc, ◌+◌, ◌-◌, ◌^◌, ◌≤◌, ◌<◌, ◌≡◌, ◌≢◌, Bool, Option, none, some, List, [], ◌∷◌, ◌++◌, ◌==◌,
  leb, if◌then◌else◌, Text, codes, is_empty, length, take, drop, All,
}
use octopusmq_cpp.Error.{runtime, Result, returns, throws, ◌>>=◌}
use octopusmq_cpp.Network.{Address, null_ip, null_port, null_address}
use octopusmq_cpp.Numerals.{SignedInt, to_uint32, of_uint32, print_int, stoi}

-- `inet_pton` and `inet_ntop` for AF_INET: the first gives nothing for what is no address, and the
-- second prints an address in at most 15 characters, with no colon, so that the first reads it.
pub record Inet : Type 0 where
  pub pton : Text → Option ℕ
  pub ntop : ℕ → Option Text
  pub ntop_lem :
      (ip : ℕ)
      → ip < 2 ^ 32
      → (t : Text) × (ntop ip ≡ some t)
        × (pton t ≡ some ip)
        × (t ≢ [])
        × (length t ≤ 15)
        × All (λ c. c ≢ b':') t

-- `INET_ADDRSTRLEN` of the system's header.
abbrev pub inet_addrstrlen : ℕ
inet_addrstrlen = 16

abbrev pub max_port_strlen : ℕ
max_port_strlen = 6

-- `find_last_of` of one character.
abbrev pub find_last_of : ℕ → Text → Option ℕ
find_last_of c [] = none
find_last_of c (x ∷ s) = elim (find_last_of c s) [
  | some i ↦ some (suc i)
  | none ↦ if x == c then some 0 else none
]

-- `address(ip, port)` for numbers.
unfoldable pub of_ip_port : ℕ → ℕ → Address
of_ip_port ip port = record { ip = ip; port = port }

-- The setters of `address`.
unfoldable pub set_address_port : ℕ → Address → Address
set_address_port port a = record a { port = port }

unfoldable pub set_address_ip : ℕ → Address → Address
set_address_ip ip a = record a { ip = ip }

module _ (inet : Inet) where
  unfoldable pub to_ip : Text → ℕ
  to_ip ip_string = elim (inet.pton ip_string) [ some ip ↦ ip | none ↦ null_ip ]

  -- `_port = port.empty() ? null_port : stoi(port)`.
  abbrev pub to_port : Text → Result ℕ
  to_port port =
      if is_empty port then returns null_port else (do n ← stoi port; returns (to_uint32 n))

  -- `sizeof` counts the zero at the end of a literal.
  abbrev pub without_colon : Text → Address → Result Address
  without_colon s before =
      if leb 8 (length s)
      then returns (record { ip = to_ip s; port = null_port })
      else (if leb (length s) 6
          then (do n ← stoi s; returns (record { ip = null_ip; port = to_uint32 n }))
          else returns before)

  -- `address::address_string`, from the fields that are there before: for the constructor, these
  -- are indeterminate.
  unfoldable pub address_string : Text → Address → Result Address
  address_string s before = elim (find_last_of b':' s) [
    | some pos ↦ do
      port ← to_port (drop (pos + 1) s)
      returns (record {
        ip = if is_empty (take pos s) then null_ip else to_ip (take pos s);
        port = port;
      })
    | none ↦ without_colon s before
  ]

  -- `address(address_string)`, where `before` stands for indeterminate fields.
  unfoldable pub of_address_string : Text → Address → Result Address
  of_address_string s before = address_string s before

  -- `address(ip, port)` for an `ip` in text.
  unfoldable pub of_ip_string : Text → ℕ → Address
  of_ip_string ip port = record { ip = to_ip ip; port = port }

  -- `snprintf` fills the rest of the buffer, but for one byte that it keeps for the zero.
  unfoldable pub to_string : Address → Result Text
  to_string a = elim (inet.ntop a.ip) [
    | none ↦
        throws (runtime (codes "[socket] cannot convert address to string (ip conversion error)"))
    | some t ↦ returns (
        t
        ++ take (inet_addrstrlen + 1 + max_port_strlen - length t - 1)
            (b':' ∷ print_int (of_uint32 a.port)))
  ]

  -- `phy::ip_string`, of the address of an interface.
  unfoldable pub ip_string : ℕ → Text
  ip_string ip = elim (inet.ntop ip) [ some t ↦ t | none ↦ [] ]

-- ===== src/Adapter/Typed.antt =====
-- src/network/adapter.cpp, src/network/mqtt/adapter.cpp, src/network/dds/adapter.cpp and
-- src/network/network.cpp: what settings that were read hold.
use octopusmq_cpp.Base.{
  ℕ, ◌<◌, ◌^◌, ◌≡◌, refl, subst, ◌≢◌, ◌↔◌, inl, inr, Bool, true, false, Bool-cases, Option, none,
  some, List, [], ◌∷◌, ◌++◌, ◌==◌, if◌then◌else◌, Text, codes, text_eq, text_eq_iff, All, arith,
}
use octopusmq_cpp.Error.{returns, >>=-eq-returns}
use octopusmq_cpp.Network.{Protocol, mqtt, dds, null_ip}
use octopusmq_cpp.Network.Phy.{
  Interface, Phy, any_interface, first_named, set_addresses, phy_addresses, found, of_name,
}
use octopusmq_cpp.Scope.{Scope}
use octopusmq_cpp.Scope.Includes.{IsValid, from_list-IsValid, from_string-eq-from_list}
use octopusmq_cpp.Json.{Json}
use octopusmq_cpp.Adapter.{BaseSettings, name_append, Settings}
use octopusmq_cpp.Adapter.Parsing.{
  Build, scope_of, scope_of_array, base_settings, mqtt_settings, dds_settings,
}
use octopusmq_cpp.Adapter.Factory.{from_json, settings_of}
use octopusmq_cpp.Adapter.Built.{Supported, returns_with, from_json-Supported}

abbrev pub IsWord : Option ℕ → Type 0
IsWord none = Unit
IsWord (some a) = a < 2 ^ 32

-- The addresses in the list of interfaces have 32 bits.
abbrev pub AllWords : Option (List Interface) → Type 0
AllWords none = Unit
AllWords (some is) = All (λ i. IsWord i.ip) is

-- An interface that was looked up, or all of them, which have the null address.
pub record IsBound (ph : Phy) : Type 0 where
  pub word : ph.ip < 2 ^ 32
  pub any_iff : (ph.ip ≡ null_ip) ↔ (ph.name ≡ any_interface)
  pub masked : ph.ip ≢ null_ip → ph.netmask ≢ none

first_named-word :
    (is : List Interface) (name : Text) (a m : ℕ)
    → All (λ i. IsWord i.ip) is
    → first_named is name ≡ some (a, m)
    → a < 2 ^ 32
unfolding first_named
first_named-word [] name a m w h = absurd (cc)
first_named-word (i ∷ is) name a m w h =
    go i.name i.ip (first_named is name) (first_named-word is name a m w.1) w.0 h
  where
    go :
        (n : Option Text) (o : Option ℕ) (rest : Option (ℕ × ℕ))
        → (rest ≡ some (a, m) → a < 2 ^ 32)
        → IsWord o
        → elim n [
          | none ↦ rest
          | some t ↦ elim o [
            | none ↦ rest
            | some b ↦ if text_eq name t then some (b, i.netmask) else rest
          ]
        ]
          ≡ some (a, m)
        → a < 2 ^ 32
    go none o rest ih k e = ih e
    go (some t) none rest ih k e = ih e
    go (some t) (some b) rest ih k e = same (text_eq name t) e
      where
        same : (y : Bool) → (if y then some (b, i.netmask) else rest) ≡ some (a, m) → a < 2 ^ 32
        same true e = let first : b ≡ a = cc in subst (λ x. x < 2 ^ 32) first k
        same false e = ih e

named : (name : Text) → text_eq name any_interface ≡ false → name ≢ any_interface
named name h e = ground (arith, h, (text_eq_iff name any_interface).1 e)

abbrev at_address : Text → ℕ → ℕ → Phy
at_address name a m = record { ip = a; netmask = some m; name = name }

-- A first entry was found, or none.
found-IsBound :
    (name : Text) (o : Option (ℕ × ℕ)) (ph : Phy)
    → name ≢ any_interface
    → ((a m : ℕ) → o ≡ some (a, m) → a < 2 ^ 32)
    → found (returns (set_addresses o (record { ip = null_ip; netmask = none; name = name })))
      ≡ returns ph
    → IsBound ph
found-IsBound name none ph n w h = absurd (cc)
found-IsBound name (some (a, m)) ph n w h = elim (Bool-cases (a == null_ip)) [
  | inl e ↦ absurd (cc (rw e at h))
  | inr e ↦
      returns_with IsBound (at_address name a m) ph
        (record {
          word = w a m refl;
          any_iff = (λ k. absurd (ground (arith, e, k)), λ k. absurd (n k));
          masked = λ _ k. absurd (cc);
        })
        (rw e at h)
]

of_name-IsBound :
    (is : Option (List Interface)) (name : Text) (ph : Phy)
    → AllWords is
    → of_name is name ≡ returns ph
    → IsBound ph
unfolding of_name phy_addresses
of_name-IsBound is name ph w h = elim (Bool-cases (text_eq name any_interface)) [
  | inl e ↦
      returns_with IsBound (record { ip = null_ip; netmask = none; name = name }) ph
        (record {
          word = omega arith;
          any_iff = (λ _. (text_eq_iff name any_interface).0 e, λ _. refl);
          masked = λ n _. n refl;
        })
        (rw e at h)
  | inr e ↦ searched is w (named name e) (rw e at h)
]
  where
    searched :
        (is : Option (List Interface))
        → AllWords is
        → name ≢ any_interface
        → found (phy_addresses is (record { ip = null_ip; netmask = none; name = name }))
          ≡ returns ph
        → IsBound ph
    searched none w n h = absurd (cc)
    searched (some is) w n h =
        found-IsBound name (first_named is name) ph n (λ a m. first_named-word is name a m w) h

-- What holds of the settings of every adapter: the scope has valid filters.
pub record IsTyped (s : BaseSettings) : Type 0 where
  pub bound : IsBound s.phy
  pub port : s.port < 2 ^ 32
  pub scope : IsValid s.scope

name_append-IsTyped : (a : Text) (s : BaseSettings) → IsTyped s → IsTyped (name_append a s)
unfolding name_append
name_append-IsTyped a s h = go s.generated_name
  where
    go : (t : Bool) → IsTyped (if t then record s { name = s.name ++ codes " " ++ a } else s)
    go true = record { bound = h.bound; port = h.port; scope = h.scope }
    go false = h

module _ (j : Json) (interfaces : Option (List Interface)) where
  scope_of-IsValid :
      (o : Option Text) (v : j.Value) (s : Scope)
      → scope_of j interfaces o v ≡ returns s
      → IsValid s
  scope_of-IsValid (some f) v s h =
      from_list-IsValid (f ∷ []) s (subst (λ r. r ≡ returns s) (from_string-eq-from_list f) h)
  scope_of-IsValid none v s h = of_array (j.get_array v) h
    where
      of_array : (o : Option (List j.Value)) → scope_of_array j interfaces o ≡ returns s → IsValid s
      of_array none h = absurd (cc)
      of_array (some vs) h = let (ss, _, k) = >>=-eq-returns _ _ h in from_list-IsValid ss s k

  module _ (words : AllWords interfaces) where
    base_settings-IsTyped :
        (protocol : Protocol) (name : Text) (v : j.Value) (s : BaseSettings)
        → base_settings j interfaces protocol name v ≡ returns s
        → IsTyped s
    unfolding base_settings
    base_settings-IsTyped protocol name v s h =
        let (interface, _, h1) = >>=-eq-returns _ _ h in
        let (phy, bound, h2) = >>=-eq-returns _ _ h1 in
        let (port_field, _, h3) = >>=-eq-returns _ _ h2 in
        let (number, _, h4) = >>=-eq-returns _ _ h3 in
        let (scope_field, _, h5) = >>=-eq-returns _ _ h4 in
        let (scope, valid, h6) = >>=-eq-returns _ _ h5 in
        let (named, _, h7) = >>=-eq-returns _ _ h6 in
        returns_with IsTyped _ s
          (record {
            bound = of_name-IsBound interfaces interface phy words bound;
            port = omega arith;
            scope = scope_of-IsValid _ scope_field scope valid;
          })
          h7

    module _ (build : Build) where
      mqtt_settings-IsTyped :
          (name : Text) (v : j.Value) (s : Settings)
          → mqtt_settings j interfaces build name v ≡ returns s
          → IsTyped s.base
      unfolding mqtt_settings
      mqtt_settings-IsTyped name v s h =
          let (base, based, h1) = >>=-eq-returns _ _ h in
          let (role_str, _, h2) = >>=-eq-returns _ _ h1 in
          let (role, _, h3) = >>=-eq-returns _ _ h2 in
          let (transport_str, _, h4) = >>=-eq-returns _ _ h3 in
          let (transport, _, h5) = >>=-eq-returns _ _ h4 in
          returns_with (λ t. IsTyped t.base) _ s
            (name_append-IsTyped _ _
              (name_append-IsTyped role_str base (base_settings-IsTyped mqtt name v base based)))
            h5

      dds_settings-IsTyped :
          (name : Text) (v : j.Value) (s : Settings)
          → dds_settings j interfaces name v ≡ returns s
          → IsTyped s.base
      unfolding dds_settings
      dds_settings-IsTyped name v s h =
          let (base, based, h1) = >>=-eq-returns _ _ h in
          let (transport_str, _, h2) = >>=-eq-returns _ _ h1 in
          let (transport, _, h3) = >>=-eq-returns _ _ h2 in
          returns_with (λ t. IsTyped t.base) _ s (base_settings-IsTyped dds name v base based) h3

      settings_of-IsTyped :
          (protocol : Protocol) (name : Text) (v : j.Value) (s : Settings)
          → settings_of j interfaces build protocol name v ≡ returns s
          → IsTyped s.base
      settings_of-IsTyped mqtt name v s h = mqtt_settings-IsTyped name v s h
      settings_of-IsTyped dds name v s h = elim (Bool-cases build.dds) [
        | inl on ↦ dds_settings-IsTyped name v s (ground arith)
        | inr off ↦ absurd (ground arith)
      ]

      pub from_json-IsTyped :
          (v : j.Value) (s : Settings)
          → from_json j interfaces build v ≡ returns s
          → IsTyped s.base × Supported build s.protocol s.specific
      unfolding from_json
      from_json-IsTyped v s h =
          let (name, _, h1) = >>=-eq-returns _ _ h in
          let (protocol, _, h2) = >>=-eq-returns _ _ h1 in
          (settings_of-IsTyped protocol name v s h2, from_json-Supported j interfaces build v s h)

-- ===== src/Broker/Table/Promise.antt =====
-- What a table of subscriptions promises for a publish: one packet for each key that is wanted.
use octopusmq_cpp.Base.{
  ◌≡◌, refl, sym, ◌∙◌, subst, ◌↔◌, inl, inr, Bool, true, false, ◌&&◌, ◌||◌, some, List, [], ◌∷◌,
  ◌==◌, ==_iff, ==_refl, if◌then◌else◌, Bool-cases, All, Text, text_eq, text_eq_iff, text_eq_refl,
  arith,
}
use octopusmq_cpp.Platform.{Platform, Connection, Subscription, same_key, holds_key}
use octopusmq_cpp.Broker.{Packet}
use octopusmq_cpp.Broker.Keys.{IsUnique, same_key_comm}
use octopusmq_cpp.Broker.Publishing.{outgoing}
use octopusmq_cpp.Broker.Table.{Options, lookup}

-- A connection and a topic filter.
abbrev pub Key : Type 0
Key = Connection × Text

abbrev pub is_key : Connection → Text → List Key → Bool
is_key c f [] = false
is_key c f ((d, g) ∷ keys) = (c == d && text_eq f g) || is_key c f keys

-- No key stands in the list twice.
abbrev pub AllOnce : List Key → Type 0
AllOnce [] = Unit
AllOnce ((c, f) ∷ keys) = (is_key c f keys ≡ false) × AllOnce keys

-- Which subscriptions want a packet.
abbrev pub Wants : Type 1
Wants = Connection → Text → Subscription → Type 0

abbrev key_of : Subscription → Key
key_of s = (s.con, s.topic_filter)

abbrev keys_of : (Subscription → Bool) → List Subscription → List Key
keys_of want [] = []
keys_of want (s ∷ ss) = if want s then key_of s ∷ keys_of want ss else keys_of want ss

-- Two subscriptions with different keys, as `lookup` compares them.
other_key :
    (s u : Subscription)
    → same_key s u ≡ false
    → (u.con == s.con && text_eq u.topic_filter s.topic_filter) ≡ false
other_key s u h = sym (same_key_comm s u) ∙ h

pub lookup-key :
    (ss : List Subscription) (c : Connection) (f : Text) (s : Subscription)
    → lookup ss c f ≡ some s
    → (s.con ≡ c) × (s.topic_filter ≡ f)
lookup-key [] c f s h = absurd (cc)
lookup-key (u ∷ ss) c f s h = elim (Bool-cases (c == u.con && text_eq f u.topic_filter)) [
  | inl e ↦
      let same : u ≡ s = ground (arith, h, e) in
      subst (λ t. (t.con ≡ c) × (t.topic_filter ≡ f)) same
        (
          ground (arith, e, ==_iff c u.con),
          sym ((text_eq_iff f u.topic_filter).0 (ground (arith, e))),
        )
  | inr e ↦ lookup-key ss c f s (ground (arith, h, e))
]

abbrev pub Finds : Options → Subscription → Type 0
Finds t s = t s.con s.topic_filter ≡ some s

Finds-cons :
    (s : Subscription) (ss rest : List Subscription)
    → holds_key s rest ≡ false
    → All (Finds (lookup ss)) rest
    → All (Finds (lookup (s ∷ ss))) rest
Finds-cons s ss [] h a = tt
Finds-cons s ss (u ∷ rest) h a =
    let other = other_key s u (ground (arith, h)) in
    (rw other a.0, Finds-cons s ss rest (ground (arith, h)) a.1)

-- In a list with one entry for each key, every entry is the one that is found.
pub IsUnique-Finds : (ss : List Subscription) → IsUnique ss → All (Finds (lookup ss)) ss
IsUnique-Finds [] u = tt
IsUnique-Finds (s ∷ ss) u = (
  let here : (s.con == s.con && text_eq s.topic_filter s.topic_filter) ≡ true =
        ground (arith, ==_refl s.con, text_eq_refl s.topic_filter) in
      rw here refl,
  Finds-cons s ss ss u.0 (IsUnique-Finds ss u.1),
)

-- What holds of every subscription of the table holds of the list.
pub All-of_table :
    (Q : Subscription → Type 0) (t : Options) (ss : List Subscription)
    → ((s : Subscription) → Finds t s → Q s)
    → All (Finds t) ss
    → All Q ss
All-of_table Q t [] h a = tt
All-of_table Q t (s ∷ ss) h a = (h s a.0, All-of_table Q t ss h a.1)

keys_of-other :
    (want : Subscription → Bool) (s : Subscription) (ss : List Subscription)
    → holds_key s ss ≡ false
    → is_key s.con s.topic_filter (keys_of want ss) ≡ false
keys_of-other want s [] h = refl
keys_of-other want s (u ∷ ss) h = elim (Bool-cases (want u)) [
  | inl w ↦ rw w (ground (arith, h, keys_of-other want s ss (ground (arith, h))))
  | inr w ↦ rw w (keys_of-other want s ss (ground (arith, h)))
]

keys_of-AllOnce :
    (want : Subscription → Bool) (ss : List Subscription) → IsUnique ss → AllOnce (keys_of want ss)
keys_of-AllOnce want [] u = tt
keys_of-AllOnce want (s ∷ ss) u = elim (Bool-cases (want s)) [
  | inl w ↦ rw w (keys_of-other want s ss u.0, keys_of-AllOnce want ss u.1)
  | inr w ↦ rw w (keys_of-AllOnce want ss u.1)
]

-- The Boolean test decides who wants a packet.
abbrev pub Decides : (Subscription → Bool) → Wants → Subscription → Type 0
Decides want W s = (want s ≡ true) ↔ W s.con s.topic_filter s

keys_of_complete :
    (want : Subscription → Bool) (W : Wants) (ss : List Subscription)
    → All (Decides want W) ss
    → (c : Connection) (f : Text) (s : Subscription) → lookup ss c f ≡ some s
    → W s.con s.topic_filter s
    → is_key c f (keys_of want ss) ≡ true
keys_of_complete want W [] a c f s h w = absurd (cc)
keys_of_complete want W (u ∷ ss) a c f s h w =
    elim (Bool-cases (c == u.con && text_eq f u.topic_filter)) [
      | inl e ↦
          let same : s ≡ u = ground (arith, h, e) in
          let wanted : want u ≡ true = a.0.1 (subst (λ t. W t.con t.topic_filter t) same w) in
          rw wanted (ground (arith, e))
      | inr e ↦
          let rest = keys_of_complete want W ss a.1 c f s (ground (arith, h, e)) w in
          elim (Bool-cases (want u)) [ inl k ↦ rw k (ground (arith, rest)) | inr k ↦ rw k rest ]
    ]

module _ (p : Platform) where
  -- One packet for each key: to its connection, and made from the options in the table.
  abbrev pub Serves :
      Options → Wants → (Subscription → Packet p) → List Key → List (Connection × Packet p) → Type 0
  Serves t W packet [] [] = Unit
  Serves t W packet [] (out ∷ outs) = ⊥
  Serves t W packet (key ∷ keys) [] = ⊥
  Serves t W packet ((c, f) ∷ keys) ((d, k) ∷ outs) =
      ((s : Subscription) × (t c f ≡ some s) × W c f s × (d ≡ c) × (k ≡ packet s))
      × Serves t W packet keys outs

  -- The packets are one for each subscription of the table that wants one, and no others.
  pub record Promised (t : Options) (W : Wants) (packet : Subscription → Packet p)
      (outs : List (Connection × Packet p)) : Type 0 where
    pub keys : List Key
    pub once : AllOnce keys
    pub served : Serves t W packet keys outs
    pub complete :
        (c : Connection) (f : Text) (s : Subscription)
        → t c f ≡ some s
        → W c f s
        → is_key c f keys ≡ true

  module _ (want : Subscription → Bool) (W : Wants) (packet : Subscription → Packet p) where
    outgoing-Serves :
        (t : Options) (ss : List Subscription)
        → All (Finds t) ss
        → All (Decides want W) ss
        → Serves t W packet (keys_of want ss) (outgoing p want packet ss)
    outgoing-Serves t [] a d = tt
    outgoing-Serves t (s ∷ ss) a d = elim (Bool-cases (want s)) [
      | inl w ↦ rw w ((s, a.0, d.0.0 w, refl, refl), outgoing-Serves t ss a.1 d.1)
      | inr w ↦ rw w (outgoing-Serves t ss a.1 d.1)
    ]

    pub outgoing-Promised :
        (ss : List Subscription)
        → IsUnique ss
        → All (Decides want W) ss
        → Promised (lookup ss) W packet (outgoing p want packet ss)
    outgoing-Promised ss u d = record {
      keys = keys_of want ss;
      once = keys_of-AllOnce want ss u;
      served = outgoing-Serves (lookup ss) ss (IsUnique-Finds ss u) d;
      complete = λ c f s h w.
          let (same_con, same_topic) = lookup-key ss c f s h in
          keys_of_complete want W ss d c f s h
            (subst (λ g. W s.con g s) (sym same_topic) (subst (λ e. W e f s) (sym same_con) w));
    }

-- ===== src/Broker/Keys.antt =====
-- src/threads/mqtt/broker.hpp, `subscription_container`: lists of subscriptions with one entry for
-- a connection and a topic filter.
use octopusmq_cpp.Base.{
  ◌≡◌, refl, sym, subst, inl, inr, Bool, false, ◌||◌, List, [], ◌∷◌, ◌++◌, arith, Bool-cases, All,
  text_eq_iff,
}
use octopusmq_cpp.Platform.{Subscription, same_key, holds_key, without, Inserted}

abbrev pub IsUnique : List Subscription → Type 0
IsUnique [] = Unit
IsUnique (s ∷ ss) = (holds_key s ss ≡ false) × IsUnique ss

pub same_key_comm : (s t : Subscription) → same_key s t ≡ same_key t s
same_key_comm s t =
    ground
      (arith, text_eq_iff s.topic_filter t.topic_filter, text_eq_iff t.topic_filter s.topic_filter)

holds_key-without :
    (s : Subscription) (drop : Subscription → Bool) (ss : List Subscription)
    → holds_key s ss ≡ false
    → holds_key s (without drop ss) ≡ false
holds_key-without s drop [] h = refl
holds_key-without s drop (t ∷ ss) h = ground (arith, holds_key-without s drop ss)

pub without-IsUnique :
    (drop : Subscription → Bool) (ss : List Subscription) → IsUnique ss → IsUnique (without drop ss)
without-IsUnique drop [] u = tt
without-IsUnique drop (s ∷ ss) u = elim (Bool-cases (drop s)) [
  | inl d ↦ rw d (without-IsUnique drop ss u.1)
  | inr d ↦ rw d (holds_key-without s drop ss u.0, without-IsUnique drop ss u.1)
]

pub holds_key-middle :
    (s t : Subscription) (l r : List Subscription)
    → holds_key s (l ++ t ∷ r) ≡ (same_key s t || holds_key s (l ++ r))
holds_key-middle s t [] r = refl
holds_key-middle s t (u ∷ l) r = ground (arith, holds_key-middle s t l r)

middle-IsUnique :
    (s : Subscription) (l r : List Subscription)
    → holds_key s (l ++ r) ≡ false
    → IsUnique (l ++ r)
    → IsUnique (l ++ s ∷ r)
middle-IsUnique s [] r h u = (h, u)
middle-IsUnique s (t ∷ l) r h u = (
  ground (arith, holds_key-middle t s l r, same_key_comm t s),
  middle-IsUnique s l r (ground arith) u.1,
)

pub Inserted-IsUnique :
    (s : Subscription) (xs ys : List Subscription)
    → Inserted s xs ys
    → holds_key s xs ≡ false
    → IsUnique xs
    → IsUnique ys
Inserted-IsUnique s xs ys (l, r, e, e') h u =
    subst IsUnique (sym e')
      (middle-IsUnique s l r (subst (λ z. holds_key s z ≡ false) e h) (subst IsUnique e u))

module _ (P : Subscription → Type 0) where
  pub All-without :
      (drop : Subscription → Bool) (ss : List Subscription) → All P ss → All P (without drop ss)
  All-without drop [] a = tt
  All-without drop (s ∷ ss) a = elim (Bool-cases (drop s)) [
    | inl d ↦ rw d (All-without drop ss a.1)
    | inr d ↦ rw d (a.0, All-without drop ss a.1)
  ]

  All-middle :
      (s : Subscription) (l r : List Subscription) → P s → All P (l ++ r) → All P (l ++ s ∷ r)
  All-middle s [] r p a = (p, a)
  All-middle s (t ∷ l) r p a = (a.0, All-middle s l r p a.1)

  pub All-Inserted :
      (s : Subscription) (xs ys : List Subscription) → Inserted s xs ys → P s → All P xs → All P ys
  All-Inserted s xs ys (l, r, e, e') p a =
      subst (All P) (sym e') (All-middle s l r p (subst (All P) e a))

-- Nothing is left that `drop` takes, and nothing else is taken.
pub without-none :
    (drop : Subscription → Bool) (ss : List Subscription)
    → All (λ s. drop s ≡ false) (without drop ss)
without-none drop [] = tt
without-none drop (s ∷ ss) = elim (Bool-cases (drop s)) [
  | inl d ↦ rw d (without-none drop ss)
  | inr d ↦ rw d (d, without-none drop ss)
]

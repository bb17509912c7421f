-- ===== src/Settings/Bindings.antt =====
-- src/core/settings.cpp and src/network/adapter.cpp: no two adapters of a pool collide.
use octopusmq_cpp.Base.{
  ◌≡◌, refl, sym, ap, ◌∙◌, subst, ◌≢◌, ◌↔◌, Bool, true, false, not, Option, none, some, List, [],
  ◌∷◌, ◌++◌, append_assoc, append-nil, Text, codes, is_empty, if◌then◌else◌, All,
}
use octopusmq_cpp.Error.{Error, Result, throws, returns, ◌>>=◌, ◌>>◌, >>=-eq-returns, require}
use octopusmq_cpp.Network.Phy.{Interface}
use octopusmq_cpp.Json.{Json}
use octopusmq_cpp.Network.Addresses.{Inet}
use octopusmq_cpp.Adapter.{Settings, compare_binding, binding_name}
use octopusmq_cpp.Adapter.Parsing.{Build, or_throw}
use octopusmq_cpp.Adapter.Factory.{from_json}
use octopusmq_cpp.Settings.{check_against, parse_loop, adapters_of, parse}

-- The adapter `t` collides with `s`, which stands before it.
abbrev pub collides : Settings → Settings → Bool
collides t s = compare_binding t s.phy.ip s.port

-- Each adapter is apart from those before it.
abbrev pub Apart : List Settings → Type 0
Apart [] = Unit
Apart (s ∷ ss) = All (λ t. collides t s ≡ false) ss × Apart ss

-- A test that throws, with a text that may throw itself, was not met where the rest returns.
passes :
    (met : Bool) (text : Result Text) (error : Text → Error) (rest : Result (Unit {0}))
    → (if met then (do name ← text; throws (error name)) else rest) ≡ returns tt
    → (met ≡ false) × (rest ≡ returns tt)
unfolding ◌>>=◌
passes true (throws e) error rest h = cc
passes true (returns t) error rest h = cc
passes false text error rest h = (refl, h)

module _ (inet : Inet) where
  check_sound :
      (back : Settings) (ss : List Settings)
      → check_against inet back ss ≡ returns tt
      → All (λ s. collides back s ≡ false) ss
  unfolding check_against
  check_sound back [] h = tt
  check_sound back (s ∷ ss) h =
      let (apart, rest) = passes (collides back s) (binding_name inet back) _ _ h in
      (apart, check_sound back ss rest)

  check_complete :
      (back : Settings) (ss : List Settings)
      → All (λ s. collides back s ≡ false) ss
      → check_against inet back ss ≡ returns tt
  unfolding check_against
  check_complete back [] h = refl
  check_complete back (s ∷ ss) h = rw (check_against, h.0) (check_complete back ss h.1)

Apart-snoc :
    (ss : List Settings) (t : Settings)
    → Apart ss
    → All (λ s. collides t s ≡ false) ss
    → Apart (ss ++ t ∷ [])
Apart-snoc [] t a h = (tt, tt)
Apart-snoc (s ∷ ss) t a h = (put ss a.0, Apart-snoc ss t a.1 h.1)
  where
    put :
        (rs : List Settings)
        → All (λ r. collides r s ≡ false) rs
        → All (λ r. collides r s ≡ false) (rs ++ t ∷ [])
    put [] k = (h.0, tt)
    put (r ∷ rs) k = (k.0, put rs k.1)

Apart-before :
    (ss : List Settings) (t : Settings) (ts : List Settings)
    → Apart (ss ++ t ∷ ts)
    → All (λ s. collides t s ≡ false) ss
Apart-before [] t ts a = tt
Apart-before (s ∷ ss) t ts a = (first ss a.0, Apart-before ss t ts a.1)
  where
    first :
        (rs : List Settings) → All (λ r. collides r s ≡ false) (rs ++ t ∷ ts) → collides t s ≡ false
    first [] k = k.0
    first (r ∷ rs) k = first rs k.1

module _ (j : Json) (interfaces : Option (List Interface)) (build : Build) (inet : Inet) where
  -- The settings that the values of a list give, one by one.
  abbrev pub Reads : List j.Value → List Settings → Type 0
  Reads [] [] = Unit
  Reads (v ∷ vs) (s ∷ ss) = (from_json j interfaces build v ≡ returns s) × Reads vs ss
  Reads _ _ = ⊥

  parse_loop_sound :
      (vs : List j.Value) (pool out : List Settings)
      → Apart pool
      → parse_loop j interfaces build inet vs pool ≡ returns out
      → (new : List Settings) × (out ≡ pool ++ new) × Reads vs new × Apart out
  unfolding parse_loop
  parse_loop_sound [] pool out a h =
      let e : pool ≡ out = cc in ([], sym e ∙ sym (append-nil pool), tt, subst Apart e a)
  parse_loop_sound (v ∷ vs) pool out a h =
      let (s, read, h1) = >>=-eq-returns _ _ h in
      let (_, checked, h2) = >>=-eq-returns (check_against inet s pool) _ h1 in
      let (new, e, reads, apart) =
        parse_loop_sound vs (pool ++ s ∷ []) out
          (Apart-snoc pool s a (check_sound inet s pool checked)) h2 in
      (s ∷ new, e ∙ append_assoc pool (s ∷ []) new, (read, reads), apart)

  parse_loop_complete :
      (vs : List j.Value) (pool new : List Settings)
      → Reads vs new
      → Apart (pool ++ new)
      → parse_loop j interfaces build inet vs pool ≡ returns (pool ++ new)
  unfolding parse_loop ◌>>=◌
  parse_loop_complete [] pool [] h a = ap returns (sym (append-nil pool))
  parse_loop_complete [] pool (s ∷ new) h a = absurd h
  parse_loop_complete (v ∷ vs) pool [] h a = absurd h
  parse_loop_complete (v ∷ vs) pool (s ∷ new) h a =
      let again = append_assoc pool (s ∷ []) new in
      rw (parse_loop, h.0, check_complete inet s pool (Apart-before pool s new a))
        (parse_loop_complete vs (pool ++ s ∷ []) new h.1 (subst Apart (sym again) a)
          ∙ ap returns again)

  parse_list_iff :
      (found : Option (List j.Value)) (e e' : Error) (pool : List Settings)
      → ((do
        list ← or_throw found e
        require (not (is_empty list)) e'
        parse_loop j interfaces build inet list [])
          ≡ returns pool)
        ↔ ((vs : List j.Value) × (found ≡ some vs)
            × (is_empty vs ≡ false)
            × Reads vs pool
            × Apart pool)
  unfolding ◌>>=◌
  parse_list_iff none e e' pool = (λ h. absurd (cc), λ h. absurd (cc))
  parse_list_iff (some []) e e' pool = (
    λ h. absurd (cc),
    λ (vs, found, full, _, _).
        let nothing : [] ≡ vs = cc in
        absurd (subst (λ l. is_empty l ≢ false) nothing (λ k. cc) full),
  )
  parse_list_iff (some (v ∷ vs)) e e' pool = (
    λ h.
        let (new, same, reads, apart) = parse_loop_sound (v ∷ vs) [] pool tt h in
        (v ∷ vs, refl, refl, subst (Reads (v ∷ vs)) (sym same) reads, apart),
    λ (ws, found, _, reads, apart).
        let same : v ∷ vs ≡ ws = cc in
        parse_loop_complete (v ∷ vs) [] pool (subst (λ l. Reads l pool) (sym same) reads) apart,
  )

  -- Reading a configuration succeeds with a pool exactly if it has a list of adapters that is not
  -- empty, the pool holds the settings of its elements in their order, and no adapter collides with
  -- one before it.
  pub parse_iff :
      (v : j.Value) (pool : List Settings)
      → (parse j interfaces build inet v ≡ returns pool) ↔ (
          (vs : List j.Value) × (adapters_of j interfaces build inet (j.find (codes "adapters") v)
            ≡ some vs)
          × (is_empty vs ≡ false)
          × Reads vs pool
          × Apart pool)
  unfolding parse
  parse_iff v pool =
      parse_list_iff (adapters_of j interfaces build inet (j.find (codes "adapters") v)) _ _ pool

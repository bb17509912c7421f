-- ===== src/Control/Options.antt =====
-- src/threads/control.cpp, `control::run`: which arguments start the program.
use octopusmq_cpp.Base.{
  ◌≡◌, refl, sym, ◌∙◌, subst, ◌≢◌, ◌↔◌, inl, inr, Bool, true, false, not, ◌||◌, none, some, List,
  [], ◌∷◌, ◌++◌, if◌then◌else◌, Text, codes, text_eq, text_eq_iff, is_empty, Bool-cases, All, arith,
}
use octopusmq_cpp.Error.{Error, runtime, Result, returns, throws, >>=-eq-returns, require}
use octopusmq_cpp.Adapter.{Settings}
use octopusmq_cpp.Adapter.Parsing.{by_name}
use octopusmq_cpp.Control.{
  Files, Arguments, exits, raised, loaded, arg_daemon, arg_help, argument_map, is_option,
  open_config, opened, arguments,
}

abbrev pub daemon_option : Text
daemon_option = codes "--daemon"

abbrev pub options : List Text → List Text
options [] = []
options (a ∷ more) = if is_option a then a ∷ options more else options more

abbrev pub names : List Text → List Text
names [] = []
names (a ∷ more) = if is_option a then names more else a ∷ names more

returns_pair {ℓ κ} :
    {A : Type ℓ} {B : Type κ} {a c : A} {b d : B}
    → ◌≡◌ {A = Result (A × B)} (returns (a, b)) (returns (c, d))
    → (a ≡ c) × (b ≡ d)
returns_pair h = (cc, cc)

require-returns : (b : Bool) (e : Error) {u : Unit {0}} → require b e ≡ returns u → b ≡ true
require-returns true e h = refl
require-returns false e h = absurd (cc)

module _ (files : Files) where
  -- The file that the names stand for: none, or one that could be read.
  abbrev pub Config : List Text → Text → List Settings → Type 0
  Config [] f pool = (f ≡ []) × (pool ≡ [])
  Config (a ∷ []) f pool = open_config files a ≡ returns (f, pool)
  Config (a ∷ b ∷ more) f pool = ⊥

  -- What the loop needs of the names once a file is open.
  abbrev Left : Text → List Settings → List Text → Text → List Settings → Type 0
  Left [] had names f pool = Config names f pool
  Left (c ∷ s) had names f pool = (names ≡ []) × (f ≡ c ∷ s) × (pool ≡ had)

  abbrev Goes : List Text → Text → Bool → List Settings → Text → Bool → List Settings → Type 0
  Goes more file daemon had f d pool =
      All (λ o. o ≡ daemon_option) (options more)
      × (d ≡ (daemon || not (is_empty (options more))))
      × Left file had (names more) f pool

  -- An option: `t` tells whether it is `--daemon`, and `h` whether it is `--help`.
  option_step :
      (a : Text) (t h : Bool) (e : Error) (rest : Arguments) (f : Text) (d daemon : Bool)
      (pool : List Settings) (os : List Text) (L : Type 0)
      → ((t ≡ true) ↔ (a ≡ daemon_option))
      → ((rest ≡ loaded f d pool)
          ↔ (All (λ o. o ≡ daemon_option) os × (d ≡ (true || not (is_empty os))) × L))
      → ((if t then rest else (if h then exits 0 else raised e)) ≡ loaded f d pool)
        ↔ (All (λ o. o ≡ daemon_option) (a ∷ os) × (d ≡ (daemon || not (is_empty (a ∷ os)))) × L)
  option_step a true h e rest f d daemon pool os L same ih = (
    λ k. let (all, on, left) = ih.0 k in ((same.0 refl, all), ground arith, left),
    λ (all, on, left). ih.1 (all.1, ground arith, left),
  )
  option_step a false true e rest f d daemon pool os L same ih =
      (λ k. absurd (cc), λ (all, on, left). let wrong = same.1 all.0 in absurd (cc))
  option_step a false false e rest f d daemon pool os L same ih =
      (λ k. absurd (cc), λ (all, on, left). let wrong = same.1 all.0 in absurd (cc))

  -- The look-up in the map of options.
  by_option :
      (a : Text) (e : Error) (rest : Arguments)
      → elim (by_name a argument_map) [
        | none ↦ raised e
        | some arg_daemon ↦ rest
        | some arg_help ↦ exits 0
      ]
        ≡ (if text_eq a daemon_option
            then rest
            else (if text_eq a (codes "--help") then exits 0 else raised e))
  by_option a e rest = elim (Bool-cases (text_eq a daemon_option)) [
    | inl d ↦ rw d refl
    | inr d ↦ elim (Bool-cases (text_eq a (codes "--help"))) [
      | inl h ↦ rw (d, h) refl
      | inr h ↦ rw (d, h) refl
    ]
  ]

  -- A name after which there are the names `ns`.
  Config-after :
      (a : Text) (ns : List Text) (n f : Text) (r pool : List Settings)
      → open_config files a ≡ returns (n, r)
      → ((ns ≡ []) × (f ≡ n) × (pool ≡ r)) ↔ Config (a ∷ ns) f pool
  Config-after a [] n f r pool e =
      (λ (_, g, h). cc, λ k. let (p, q) = returns_pair (sym e ∙ k) in (refl, sym p, sym q))
  Config-after a (b ∷ ns) n f r pool e = (λ (g, _, _). absurd (cc), λ k. absurd k)

  Config-throws :
      (a : Text) (ns : List Text) (x : Error) (f : Text) (pool : List Settings)
      → open_config files a ≡ throws x
      → Config (a ∷ ns) f pool
      → ⊥
  Config-throws a [] x f pool e k = cc
  Config-throws a (b ∷ ns) x f pool e k = k

  open_config-named :
      (a n : Text) (r : List Settings) → open_config files a ≡ returns (n, r) → n ≢ []
  unfolding open_config
  open_config-named a n r h e =
      let (name, _, h1) = >>=-eq-returns _ _ h in
      let (_, full, h2) = >>=-eq-returns _ _ h1 in
      let (_, _, h3) = >>=-eq-returns _ _ h2 in
      let (_, _, h4) = >>=-eq-returns _ _ h3 in
      let (_, _, h5) = >>=-eq-returns _ _ h4 in
      let (_, _, h6) = >>=-eq-returns _ _ h5 in
      let (_, _, h7) = >>=-eq-returns _ _ h6 in
      let same = (returns_pair h7).0 in
      let given = require-returns (not (is_empty name)) _ full in
      absurd (subst (λ x. not (is_empty x) ≢ true) (sym (same ∙ e)) (λ k. cc) given)

  -- A name, where no file is open yet; `x` is what opening it gives.
  name_step :
      (a : Text) (x : Result (Text × List Settings)) (more : List Text) (daemon : Bool) (f : Text)
      (d : Bool) (pool : List Settings) (A : Type 0)
      → open_config files a ≡ x
      → ((n : Text) (r : List Settings)
          → n ≢ []
          → (arguments files more n daemon r ≡ loaded f d pool) ↔ (
              A
              × (d ≡ (daemon || not (is_empty (options more))))
              × ((names more ≡ []) × (f ≡ n) × (pool ≡ r))))
      → (opened files x (λ n r. arguments files more n daemon r) ≡ loaded f d pool)
        ↔ (A × (d ≡ (daemon || not (is_empty (options more)))) × Config (a ∷ names more) f pool)
  name_step a (throws x) more daemon f d pool A e ih =
      (λ k. absurd (cc), λ (_, _, k). absurd (Config-throws a (names more) x f pool e k))
  name_step a (returns (n, r)) more daemon f d pool A e ih =
      let full = open_config-named a n r e in
      let config = Config-after a (names more) n f r pool e in
      (
        λ k. let (all, on, left) = (ih n r full).0 k in (all, on, config.0 left),
        λ (all, on, left). (ih n r full).1 (all, on, config.1 left),
      )

  -- A name, for each state of the file name.
  any_name_step :
      (a file : Text) (more : List Text) (e : Error) (daemon : Bool) (had : List Settings)
      (f : Text) (d : Bool) (pool : List Settings) (A : Type 0)
      → ((n : Text) (r : List Settings)
          → n ≢ []
          → (arguments files more n daemon r ≡ loaded f d pool) ↔ (
              A
              × (d ≡ (daemon || not (is_empty (options more))))
              × ((names more ≡ []) × (f ≡ n) × (pool ≡ r))))
      → ((if is_empty file
            then opened files (open_config files a) (λ n r. arguments files more n daemon r)
            else raised e)
          ≡ loaded f d pool)
        ↔ (A
            × (d ≡ (daemon || not (is_empty (options more))))
            × Left file had (a ∷ names more) f pool)
  any_name_step a [] more e daemon had f d pool A ih =
      name_step a (open_config files a) more daemon f d pool A refl ih
  any_name_step a (c ∷ s) more e daemon had f d pool A ih =
      (λ k. absurd (cc), λ (_, _, (k, _, _)). absurd (cc))

  Left-named :
      (had : List Settings) (ns : List Text) (n f : Text) (pool : List Settings)
      → n ≢ []
      → Left n had ns f pool ↔ ((ns ≡ []) × (f ≡ n) × (pool ≡ had))
  Left-named had ns [] f pool h = absurd (h refl)
  Left-named had ns (c ∷ s) f pool h = (λ k. k, λ k. k)

  arguments_iff_from :
      (more : List Text) (file : Text) (daemon : Bool) (had : List Settings) (f : Text) (d : Bool)
      (pool : List Settings)
      → (file ≡ [] → had ≡ [])
      → (arguments files more file daemon had ≡ loaded f d pool)
        ↔ Goes more file daemon had f d pool
  unfolding arguments
  arguments_iff_from [] [] daemon had f d pool start =
      let none_yet = start refl in
      (λ h. (tt, ground arith, (cc, cc)), λ (_, on, (g, k)). ground arith)
  arguments_iff_from [] (c ∷ s) daemon had f d pool start =
      (λ h. (tt, ground arith, (refl, cc, cc)), λ (_, on, (_, g, k)). ground arith)
  arguments_iff_from (a ∷ more) file daemon had f d pool start = elim (Bool-cases (is_option a)) [
    | inl o ↦
        rw
          (
            o,
            by_option a (runtime (codes "unknown option: " ++ a))
                (arguments files more file true had),
          )
          (option_step a (text_eq a daemon_option) (text_eq a (codes "--help")) _ _ f d daemon pool
            (options more) _ (text_eq_iff a daemon_option)
            (arguments_iff_from more file true had f d pool start))
    | inr o ↦ rw o (
        any_name_step a file more _ daemon had f d pool _ (λ n r full.
          let ih = arguments_iff_from more n daemon r f d pool (λ e. absurd (full e)) in
          let left = Left-named r (names more) n f pool full in
          (
            λ k. let (all, on, l) = ih.0 k in (all, on, left.0 l),
            λ (all, on, l). ih.1 (all, on, left.1 l),
          )))
  ]

  -- The loop over the arguments ends without an exit or an exception exactly if each option is
  -- `--daemon`, and there is at most one other argument, which is the name of a file that can be
  -- opened and read. Then the daemon flag tells whether there was an option, and the pool is the
  -- one of the file.
  pub arguments_iff :
      (args : List Text) (f : Text) (d : Bool) (pool : List Settings)
      → (arguments files args [] false [] ≡ loaded f d pool) ↔ (
          All (λ o. o ≡ daemon_option) (options args)
          × (d ≡ not (is_empty (options args)))
          × Config (names args) f pool)
  arguments_iff args f d pool = arguments_iff_from args [] false [] f d pool (λ e. refl)

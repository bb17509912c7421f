-- ===== src/Control/Signals.antt =====
-- src/threads/control.cpp: the signals of the program.
use octopusmq_cpp.Base.{
  ℕ, ◌≡◌, refl, ◌⊎◌, inl, inr, arith, Bool, true, false, Bool-cases, Option, none, some, List, [],
  ◌∷◌, ◌++◌, ◌==◌, if◌then◌else◌, Text, codes, take,
}
use octopusmq_cpp.Platform.{Platform}
use octopusmq_cpp.Log.{info, Log, Printing, fault}
use octopusmq_cpp.Log.Format.{text, expand, print_format}
use octopusmq_cpp.Log.Lines.{Clear, timed, Prints, print_format-Prints}
use octopusmq_cpp.Control.Managing.{Controlled}

-- `supported_signals`: SIGHUP, SIGINT, SIGQUIT and SIGABRT.
abbrev pub supported_signals : List (ℕ × Text)
supported_signals =
    (1, codes "hangup") ∷ (2, codes "interrupt") ∷ (3, codes "quit") ∷ (6, codes "abort") ∷ []

-- Which signals have `signal_handler` as their handler.
abbrev pub Handlers : Type 0
Handlers = ℕ → Bool

-- The loop of `init_signal_handlers`.
abbrev pub install : List (ℕ × Text) → Handlers → Handlers
install [] handlers = handlers
install ((n, t) ∷ rest) handlers = install rest (λ sig. if sig == n then true else handlers sig)

unfoldable pub init_signal_handlers : Handlers → Handlers
init_signal_handlers handlers = install supported_signals handlers

abbrev pub signal_text : List (ℕ × Text) → ℕ → Option Text
signal_text [] sig = none
signal_text ((n, t) ∷ rest) sig =
    let later = signal_text rest sig in if n == sig then some t else later

-- What `signal_handler` prints: for another signal, which has no handler, the text is a null
-- pointer.
abbrev pub print_signal : Option Text → Log → Printing
print_signal none l = fault
print_signal (some t) l =
    print_format info (some (codes "received %s signal, stopping...")) (text t ∷ []) l

-- `signal_handler`, whose second part is the step `signalled` of the loop.
unfoldable pub signal_handler : (p : Platform) → ℕ → Log → Controlled p → Printing × Controlled p
signal_handler p sig l c =
    (print_signal (signal_text supported_signals sig) l, record c { should_stop = true })

-- A signal has its handler from before, or there is a text for it.
install-text :
    (m : List (ℕ × Text)) (handlers : Handlers) (sig : ℕ)
    → install m handlers sig ≡ true
    → (handlers sig ≡ true) ⊎ ((t : Text) × (signal_text m sig ≡ some t))
install-text [] handlers sig h = inl h
install-text ((n, t) ∷ m) handlers sig h = elim (Bool-cases (n == sig)) [
  | inl e ↦ inr (t, rw e refl)
  | inr e ↦ elim (install-text m _ sig h) [
    | inl k ↦ inl (ground (arith, k, e))
    | inr (u, k) ↦ inr (u, rw e k)
  ]
]

-- Every signal for which `init_signal_handlers` sets the handler has a text, so the handler prints
-- it, and asks the loop of the main thread to stop.
pub signal_handler_lem :
    (p : Platform) (sig : ℕ) (l : Log) (c : Controlled p)
    → init_signal_handlers (λ s. false) sig ≡ true
    → Clear l
    → (t : Text) × Prints
        (timed info (take 255 (codes "received " ++ (t ++ codes " signal, stopping..."))) ∷ [])
        l
        (signal_handler p sig l c).0
      × ((signal_handler p sig l c).1.should_stop ≡ true)
unfolding init_signal_handlers signal_handler expand
signal_handler_lem p sig l c h clear = elim (install-text supported_signals (λ s. false) sig h) [
  | inl never ↦ absurd (cc)
  | inr (t, e) ↦ (
    t,
    rw (signal_handler, e)
        (print_format-Prints info (codes "received %s signal, stopping...") (text t ∷ [])
          (codes "received " ++ (t ++ codes " signal, stopping...")) l (λ e. cc) refl refl clear),
    refl,
  )
]

-- ===== src/Broker/Logged/Headers.antt =====
-- What a broker's log looks like on the console.
use octopusmq_cpp.Base.{
  ℕ, suc, ◌+◌, ◌≡◌, refl, sym, ap, ◌∙◌, true, false, List, [], ◌∷◌, ◌++◌, append_assoc, append-nil,
  if◌then◌else◌, Text, length, text_eq, text_eq_refl, All, arith,
}
use octopusmq_cpp.Network.Addresses.{Inet}
use octopusmq_cpp.Log.{Log, printed}
use octopusmq_cpp.Broker.{Entry}
use octopusmq_cpp.Broker.Logged.{print_entries}
use octopusmq_cpp.Log.Lines.{Clear}
use octopusmq_cpp.Broker.Logged.Lines.{
  IsPrintable, is_event, line, lines, name_line, name_before, after, print_entry-after,
}

module _ (inet : Inet) (name : Text) where
  abbrev still_clear :
      (l : Log) (n : ℕ) (last out : Text)
      → Clear l
      → Clear (record l { readings = n; last_adapter_name = last; out = out })
  still_clear l n last out clear = record {
    absolute = clear.absolute;
    since = clear.since;
    till = clear.till;
  }

  -- No name is printed while the last one is that of this adapter.
  same_name :
      (es : List Entry) (l : Log)
      → All IsPrintable es
      → Clear l
      → text_eq l.last_adapter_name name ≡ true
      → (m : Log) × (print_entries inet name es l ≡ printed m)
        × (m.out ≡ l.out ++ lines inet name l.clock l.readings es)
        × (text_eq m.last_adapter_name name ≡ true)
  unfolding print_entries
  same_name [] l h clear same = (l, refl, sym (append-nil l.out), same)
  same_name (e ∷ es) l h clear same =
      let silent : name_before inet name e l ≡ [] = ground (arith, same) in
      let keeps : text_eq (after inet name e l).last_adapter_name name ≡ true =
        ground (arith, same, text_eq_refl name) in
      let (m, runs, out, last) =
        same_name es (after inet name e l) h.1 (still_clear l _ _ _ clear) keeps in
      (
        m,
        rw (print_entries, print_entry-after inet name e l h.0 clear) runs,
        out
            ∙ ap
                (λ t.
                  l.out
                  ++ (t ++ line inet name (l.clock l.readings) e)
                  ++ lines inet name l.clock (l.readings + 1) es)
                silent
            ∙ append_assoc l.out (line inet name (l.clock l.readings) e)
                (lines inet name l.clock (l.readings + 1) es),
        last,
      )

  abbrev own : Text → Text
  own last = if text_eq last name then [] else name_line inet name

  abbrev own_name : Log → Text
  own_name l = own l.last_adapter_name

  -- A broker's log, printed by a clock between 2001 and 2286, with 32-bit addresses: one line for
  -- each entry, in order, with the time of its printing; and before the line of the first event,
  -- but never again, a line with the adapter's name, which is left out if the last event that was
  -- printed before is one of this adapter.
  pub print_entries_lem :
      (closings : List Entry) (e : Entry) (es : List Entry) (l : Log)
      → All (λ x. is_event x ≡ false) closings
      → is_event e ≡ true
      → All IsPrintable (closings ++ e ∷ es)
      → Clear l
      → (m : Log) × (print_entries inet name (closings ++ e ∷ es) l ≡ printed m)
        × (m.out
            ≡ l.out
              ++ (lines inet name l.clock l.readings closings
                  ++ ((if text_eq l.last_adapter_name name then [] else name_line inet name)
                      ++ lines inet name l.clock (l.readings + length closings) (e ∷ es))))
        × (text_eq m.last_adapter_name name ≡ true)
  unfolding print_entries
  print_entries_lem [] e es l quiet first h clear =
      let nb : name_before inet name e l
          ≡ (if text_eq l.last_adapter_name name then [] else name_line inet name) =
        ground (arith, first) in
      let keeps : text_eq (after inet name e l).last_adapter_name name ≡ true =
        ground (arith, first, text_eq_refl name) in
      let (m, runs, out, last) =
        same_name es (after inet name e l) h.1 (still_clear l _ _ _ clear) keeps in
      let zero_more : l.readings + 0 ≡ l.readings = omega arith in
      (
        m,
        rw (print_entries, print_entry-after inet name e l h.0 clear) runs,
        out
            ∙ ap
                (λ t.
                  l.out
                  ++ (t ++ line inet name (l.clock l.readings) e)
                  ++ lines inet name l.clock (l.readings + 1) es)
                nb
            ∙ append_assoc l.out (own_name l ++ line inet name (l.clock l.readings) e)
                (lines inet name l.clock (l.readings + 1) es)
            ∙ ap (λ t. l.out ++ t)
                (append_assoc (own_name l) (line inet name (l.clock l.readings) e)
                  (lines inet name l.clock (l.readings + 1) es))
            ∙ ap (λ n. l.out ++ (own_name l ++ lines inet name l.clock n (e ∷ es))) (sym zero_more),
        last,
      )
  print_entries_lem (x ∷ xs) e es l quiet first h clear =
      let silent : name_before inet name x l ≡ [] = ground (arith, quiet.0) in
      let one_more : l.readings + 1 + length xs ≡ l.readings + suc (length xs) = omega arith in
      let rest : Log → ℕ → Text = λ m n.
        lines inet name l.clock (l.readings + 1) xs
        ++ (own_name m ++ lines inet name l.clock n (e ∷ es)) in
      let keeps : (after inet name x l).last_adapter_name ≡ l.last_adapter_name =
        ground (arith, quiet.0) in
      let (m, runs, out, last) =
        print_entries_lem xs e es (after inet name x l) quiet.1 first h.1
          (still_clear l _ _ _ clear) in
      (
        m,
        rw (print_entries, print_entry-after inet name x l h.0 clear) runs,
        out
            ∙ ap
                (λ t.
                  l.out
                  ++ (t ++ line inet name (l.clock l.readings) x)
                  ++ rest (after inet name x l) (l.readings + 1 + length xs))
                silent
            ∙ append_assoc l.out (line inet name (l.clock l.readings) x)
                (rest (after inet name x l) (l.readings + 1 + length xs))
            ∙ ap
                (λ t.
                  l.out
                  ++ (line inet name (l.clock l.readings) x
                      ++ (lines inet name l.clock (l.readings + 1) xs
                          ++ (own (t)
                              ++ lines inet name l.clock (l.readings + 1 + length xs) (e ∷ es)))))
                keeps
            ∙ ap
                (λ n.
                  l.out
                  ++ (line inet name (l.clock l.readings) x
                      ++ (lines inet name l.clock (l.readings + 1) xs
                          ++ (own_name l ++ lines inet name l.clock n (e ∷ es)))))
                one_more
            ∙ ap (λ t. l.out ++ t)
                (sym (
                  append_assoc (line inet name (l.clock l.readings) x)
                    (lines inet name l.clock (l.readings + 1) xs)
                    (own_name l
                      ++ lines inet name l.clock (l.readings + suc (length xs)) (e ∷ es)))),
        last,
      )

-- ===== src/Platform/Reference.antt =====
-- The assumptions of `Platform` can be met: publish options as the flags of an MQTT header, and the
-- container as a list in the order of the topic filters.
use octopusmq_cpp.Base.{
  none, ℕ, ◌+◌, ◌*◌, ◌/◌, ◌%◌, ◌≡◌, refl, inl, inr, ap, Bool, true, false, ◌&&◌, ◌||◌, List, [],
  ◌∷◌, ◌==◌, ltb, if◌then◌else◌, Text, Bool-cases,
}
use octopusmq_cpp.Platform.{
  Qos, at_most_once, at_least_once, exactly_once, rank, PublishOptions, Subscription, Platform,
  holds_key, without, on_topic, on_connection, Inserted,
}

abbrev bit : Bool → ℕ
bit true = 1
bit false = 0

abbrev qos_of : ℕ → Qos
qos_of n = if n == 0 then at_most_once else (if n == 1 then at_least_once else exactly_once)

abbrev flags : PublishOptions → ℕ
flags o = bit o.retain + 2 * rank o.qos + 8 * bit o.dup

abbrev options : ℕ → PublishOptions
options n = record { qos = qos_of (n / 2 % 4); retain = n % 2 == 1; dup = n / 8 % 2 == 1 }

options_of :
    (q : Qos) (r d : Bool)
    → options (flags (record { qos = q; retain = r; dup = d }))
      ≡ record { qos = q; retain = r; dup = d }
options_of at_most_once true true = refl
options_of at_most_once true false = refl
options_of at_most_once false true = refl
options_of at_most_once false false = refl
options_of at_least_once true true = refl
options_of at_least_once true false = refl
options_of at_least_once false true = refl
options_of at_least_once false false = refl
options_of exactly_once true true = refl
options_of exactly_once true false = refl
options_of exactly_once false true = refl
options_of exactly_once false false = refl

pub options-flags : (o : PublishOptions) → options (flags o) ≡ o
options-flags o = options_of o.qos o.retain o.dup

-- `operator<` of `mqtt_cpp::buffer`, by bytes.
abbrev less : Text → Text → Bool
less [] [] = false
less [] (y ∷ ys) = true
less (x ∷ xs) [] = false
less (x ∷ xs) (y ∷ ys) = ltb x y || (x == y && less xs ys)

abbrev insert : Subscription → List Subscription → List Subscription
insert s [] = s ∷ []
insert s (t ∷ ts) = if less s.topic_filter t.topic_filter then s ∷ t ∷ ts else t ∷ insert s ts

abbrev put : Subscription → List Subscription → List Subscription
put s ss = if holds_key s ss then ss else insert s ss

insert-Inserted : (s : Subscription) (ss : List Subscription) → Inserted s ss (insert s ss)
insert-Inserted s [] = ([], [], refl, refl)
insert-Inserted s (t ∷ ts) = elim (Bool-cases (less s.topic_filter t.topic_filter)) [
  | inl h ↦ rw h ([], t ∷ ts, refl, refl)
  | inr h ↦
      let (l, r, e, e') = insert-Inserted s ts in
      rw h (t ∷ l, r, ap (λ x. t ∷ x) e, ap (λ x. t ∷ x) e')
]

pub put_new :
    (s : Subscription) (ss : List Subscription) → holds_key s ss ≡ false → Inserted s ss (put s ss)
put_new s ss h = rw h (insert-Inserted s ss)

pub put_old : (s : Subscription) (ss : List Subscription) → holds_key s ss ≡ true → put s ss ≡ ss
put_old s ss h = rw h

abbrev pub reference : Platform
reference = record {
  Props = Text;
  no_props = [];
  encode = flags;
  decode = options;
  decode-encode = options-flags;
  server_error = λ id ip port. none;
  Index = List Subscription;
  no_subs = [];
  by_topic = λ i. i;
  emplace = put;
  erase_topic = λ t i. without (on_topic t) i;
  erase_connection = λ c i. without (on_connection c) i;
  by_topic-no_subs = refl;
  emplace_new = put_new;
  emplace_old = put_old;
  by_topic-erase_topic = λ t i. refl;
  by_topic-erase_connection = λ c i. refl;
}

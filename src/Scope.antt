-- ===== src/Scope.antt =====
-- src/network/message.hpp and src/network/message.cpp, class `scope`: topic filters, topics, and
-- the test whether a filter includes a topic.
pub mod Split
pub mod Filters
pub mod Tokens
pub mod Topics
pub mod Matching
pub mod Verdict
pub mod Answers
pub mod Includes
pub mod Ending
pub mod Tests
use octopusmq_cpp.Error.{Result, returns, throws, invalid_topic_filter}
use octopusmq_cpp.Base.{
  ℕ, zero, suc, ◌+◌, ◌-◌, Bool, true, false, not, ◌&&◌, ◌||◌, Option, none, some, List, [], ◌∷◌,
  ◌++◌, ltb, leb, ◌==◌, if◌then◌else◌, length, get_elem?, take, drop, Text, text_eq, is_empty,
}

abbrev pub hash_sign : Text
hash_sign = b'#' ∷ []

abbrev pub plus_sign : Text
plus_sign = b'+' ∷ []

abbrev pub slash_sign : Text
slash_sign = b'/' ∷ []

-- `std::string::find_first_of(c, pos)`; `none` is `npos`.
abbrev later : Option ℕ → Option ℕ
later none = none
later (some k) = some (suc k)

unfoldable pub find_first_of : ℕ → Text → ℕ → Option ℕ
find_first_of c [] pos = none
find_first_of c (x ∷ s) zero = if x == c then some 0 else later (find_first_of c s 0)
find_first_of c (x ∷ s) (suc pos) = later (find_first_of c s pos)

-- `std::string::substr(pos, count)`.
abbrev pub substr : Text → ℕ → ℕ → Text
substr s pos count = take count (drop pos s)

-- `if (second == string::npos) second = size`.
abbrev pub or_size : Option ℕ → Text → ℕ
or_size none s = length s
or_size (some k) s = k

abbrev pub has : ℕ → Text → Bool
has c s = elim (find_first_of c s 0) [ none ↦ false | some k ↦ true ]

-- A token with `#` or `+` in it that is neither of the two wildcards.
unfoldable pub misplaced : Text → Bool
misplaced token =
    not (text_eq token hash_sign)
    && not (text_eq token plus_sign)
    && (has b'#' token || has b'+' token)

-- The loop of `tokenize_topic_filter`; its outer `none` means that the fuel ran out.
unfoldable pub filter_loop : ℕ → Text → ℕ → List Text → Option (List Text)
filter_loop zero s first tokens = none
filter_loop (suc fuel) s first tokens =
    let second = or_size (find_first_of b'/' s first) s in
    let token = substr s first (second - first) in
    let rest = filter_loop fuel s (second + 1) (tokens ++ token ∷ []) in
    let body =
      if text_eq token hash_sign && not (second == length s)
      then some []
      else (if misplaced token then some [] else rest) in
    if leb first (length s) then body else some tokens

abbrev pub or_empty : Option (List Text) → List Text
or_empty none = []
or_empty (some tokens) = tokens

-- An empty result says that the filter is not valid.
unfoldable pub tokenize_topic_filter : Text → List Text
tokenize_topic_filter s =
    if is_empty s
    then []
    else (if text_eq s hash_sign || text_eq s plus_sign
        then s ∷ []
        else or_empty (filter_loop (length s + 2) s 0 []))

-- The loop of `tokenize_topic`.
unfoldable pub topic_loop : ℕ → Text → ℕ → List Text → Option (List Text)
topic_loop zero s first tokens = none
topic_loop (suc fuel) s first tokens =
    let second = or_size (find_first_of b'/' s first) s in
    let rest = topic_loop fuel s (second + 1) (tokens ++ substr s first (second - first) ∷ []) in
    if leb first (length s) then rest else some tokens

unfoldable pub tokenize_topic : Text → List Text
tokenize_topic s =
    if is_empty s
    then []
    else (if has b'#' s || has b'+' s then [] else or_empty (topic_loop (length s + 2) s 0 []))

-- The loop of `compare_topics`, which counts the filter's tokens that fit; `none` is a read
-- `topic[i]` past the end.
unfoldable pub fitting : List Text → List Text → ℕ → Option ℕ
fitting [] topic i = some i
fitting (f ∷ fs) topic i = elim (get_elem? topic i) [
  | none ↦ none
  | some t ↦ if text_eq f t || text_eq f plus_sign then fitting fs topic (i + 1) else some i
]

abbrev pub is_sole_hash : List Text → Bool
is_sole_hash [] = false
is_sole_hash (f ∷ fs) = is_empty fs && text_eq f hash_sign

-- The last test of `compare_topics`; `none` is a read `filter[i]` past the end.
unfoldable pub ends_well : List Text → List Text → ℕ → Option Bool
ends_well filter topic i =
    if ltb i (length topic)
    then elim (get_elem? filter i) [ none ↦ none | some f ↦ some (text_eq f hash_sign) ]
    else some true

-- `none` is undefined behaviour.
unfoldable pub compare_topics : List Text → List Text → Option Bool
compare_topics filter topic =
    if is_sole_hash filter
    then some true
    else (if ltb (length topic) (length filter)
        then some false
        else elim (fitting filter topic 0) [ none ↦ none | some i ↦ ends_well filter topic i ])

unfoldable pub valid_topic_filter : Text → Bool
valid_topic_filter s =
    (text_eq s hash_sign || text_eq s plus_sign || text_eq s slash_sign)
    || not (is_empty (tokenize_topic_filter s))

unfoldable pub matches_filter : Text → Text → Option Bool
matches_filter filter topic =
    if text_eq filter hash_sign
    then some true
    else (if is_empty (tokenize_topic_filter filter) || is_empty (tokenize_topic topic)
        then some false
        else compare_topics (tokenize_topic_filter filter) (tokenize_topic topic))

pub record Scope : Type 0 where
  pub filters : List (List Text)
  pub is_global_wildcard : Bool

-- The constructors.
unfoldable pub default_scope : Scope
default_scope = record { filters = []; is_global_wildcard = true }

unfoldable pub from_string : Text → Result Scope
from_string s =
    if text_eq s hash_sign
    then returns (record { filters = []; is_global_wildcard = true })
    else (if is_empty (tokenize_topic_filter s)
        then throws (invalid_topic_filter s)
        else returns
            (record { filters = tokenize_topic_filter s ∷ []; is_global_wildcard = false }))

-- The loop of the constructor from a list, over the filters collected so far.
unfoldable pub collect : List Text → List (List Text) → Result Scope
collect [] filters = returns (record { filters = filters; is_global_wildcard = false })
collect (s ∷ more) filters =
    let rest = collect more (filters ++ tokenize_topic_filter s ∷ []) in
    if text_eq s hash_sign
    then returns (record { filters = filters; is_global_wildcard = true })
    else (if is_empty (tokenize_topic_filter s) then throws (invalid_topic_filter s) else rest)

unfoldable pub from_list : List Text → Result Scope
from_list strings = collect strings []

-- The loop of `includes`, which stops at the first filter that matches.
unfoldable pub any_filter : List (List Text) → List Text → Option Bool
any_filter [] topic = some false
any_filter (f ∷ fs) topic =
    let rest = any_filter fs topic in
    elim (compare_topics f topic) [ none ↦ none | some true ↦ some true | some false ↦ rest ]

unfoldable pub includes : Scope → Text → Option Bool
includes s topic =
    if s.is_global_wildcard
    then some true
    else (if is_empty (tokenize_topic topic)
        then some false
        else any_filter s.filters (tokenize_topic topic))

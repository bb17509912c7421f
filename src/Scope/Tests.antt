-- ===== src/Scope/Tests.antt =====
-- Runs of src/network/message.cpp, class `scope`, and its theorems at concrete inputs.
use octopusmq_cpp.Base.{
  ◌≡◌, refl, ◌↔◌, ◌≢◌, ◌⊎◌, true, false, none, some, [], ◌∷◌, codes, Text, All, arith,
}
use octopusmq_cpp.Error.{returns}
use octopusmq_cpp.Scope.{
  Scope, find_first_of, misplaced, filter_loop, tokenize_topic_filter, topic_loop, tokenize_topic,
  fitting, ends_well, compare_topics, valid_topic_filter, matches_filter, from_string, collect,
  from_list, any_filter, includes,
}
use octopusmq_cpp.Scope.Split.{split}
use octopusmq_cpp.Scope.Filters.{ValidFilter, ValidTopic}
use octopusmq_cpp.Scope.Tokens.{levels_ok, checked, valid_topic_filter_iff}
use octopusmq_cpp.Scope.Ending.{tokenizers_end}
use octopusmq_cpp.Scope.Matching.{Matches, Overruns}
use octopusmq_cpp.Scope.Answers.{matches_filter-true_iff, matches_filter-faults_iff}
use octopusmq_cpp.Scope.Includes.{
  Any, Built, IsValid, from_list_iff, from_list-IsValid, includes_iff,
}

unfoldable pub scope : Unit {0}
unfolding find_first_of misplaced filter_loop tokenize_topic_filter topic_loop tokenize_topic
    fitting ends_well compare_topics valid_topic_filter matches_filter from_string collect from_list
    any_filter includes split
scope = tt

abbrev pub home : Text
home = codes "home/+/temp"

abbrev pub below : Text
below = codes "home/#"

abbrev pub kitchen : Text
kitchen = codes "home/kitchen/temp"

matching_tests :
    (matches_filter home kitchen ≡ some true)
    × (matches_filter below kitchen ≡ some true)
    × (matches_filter home (codes "home/kitchen/light") ≡ some false)
    × (matches_filter below (codes "garden/kitchen/temp") ≡ some false)
    × (matches_filter (codes "#") (codes "a") ≡ some true)
    × (matches_filter (codes "a") (codes "a/b") ≡ none)
    × (matches_filter (codes "a/#") (codes "a") ≡ some false)
    × (matches_filter home home ≡ some false)
unfolding scope
matching_tests = (refl, refl, refl, refl, refl, refl, refl, refl)

validity_tests :
    (valid_topic_filter (codes "a//+/#") ≡ true)
    × (valid_topic_filter (codes "a/#/b") ≡ false)
    × (valid_topic_filter (codes "a+") ≡ false)
    × (valid_topic_filter (codes "") ≡ false)
    × (tokenize_topic (codes "/a/") ≡ codes "" ∷ codes "a" ∷ codes "" ∷ [])
unfolding scope
validity_tests = (refl, refl, refl, refl, refl)

pub home-ValidFilter : ValidFilter home
unfolding scope
home-ValidFilter = (valid_topic_filter_iff home).0 refl

pub below-ValidFilter : ValidFilter below
unfolding scope
below-ValidFilter = (valid_topic_filter_iff below).0 refl

pub kitchen-ValidTopic : ValidTopic kitchen
kitchen-ValidTopic = (λ e. cc, omega arith)

matches_filter-true_iff_example :
    (matches_filter home kitchen ≡ some true) ↔ Matches (split home) (split kitchen)
matches_filter-true_iff_example =
    matches_filter-true_iff home kitchen home-ValidFilter kitchen-ValidTopic

matches_filter-faults_iff_example :
    (matches_filter home kitchen ≡ none) ↔ Overruns (split home) (split kitchen)
matches_filter-faults_iff_example =
    matches_filter-faults_iff home kitchen home-ValidFilter kitchen-ValidTopic

valid_topic_filter_iff_example : (valid_topic_filter home ≡ true) ↔ ValidFilter home
valid_topic_filter_iff_example = valid_topic_filter_iff home

-- The scope of the filters `home/+/temp` and `home/#`.
abbrev houses : Scope
houses = record {
  filters = (codes "home" ∷ codes "+" ∷ codes "temp" ∷ []) ∷ (codes "home" ∷ codes "#" ∷ []) ∷ [];
  is_global_wildcard = false;
}

from_list-houses : from_list (home ∷ below ∷ []) ≡ returns houses
unfolding scope
from_list-houses = refl

from_list_iff_example :
    (from_list (home ∷ below ∷ []) ≡ returns houses) ↔ Built (home ∷ below ∷ []) [] houses
from_list_iff_example = from_list_iff (home ∷ below ∷ []) houses

houses-IsValid : IsValid houses
houses-IsValid = from_list-IsValid (home ∷ below ∷ []) houses from_list-houses

-- Neither filter ends before the topic's levels.
kitchen_safe : All (λ f. ¬ Overruns f (split kitchen)) houses.filters
unfolding scope
kitchen_safe = (
  (λ o.
      let e = (matches_filter-faults_iff home kitchen home-ValidFilter kitchen-ValidTopic).1 o in
      cc),
  (
    (λ o.
        let e =
          (matches_filter-faults_iff below kitchen below-ValidFilter kitchen-ValidTopic).1 o in
        cc),
    tt,
  ),
)

includes_iff_example :
    (includes houses kitchen ≢ none)
    × ((includes houses kitchen ≡ some true)
        ↔ ((false ≡ true) ⊎ Any (λ f. Matches f (split kitchen)) houses.filters))
includes_iff_example = includes_iff houses kitchen houses-IsValid kitchen-ValidTopic kitchen_safe

tokenizers_end_example :
    (topic_loop 99 home 0 [] ≡ some (split home))
    × (filter_loop 99 home 0 [] ≡ some (checked (levels_ok (split home)) (split home)))
tokenizers_end_example = tokenizers_end home 99 (omega arith)

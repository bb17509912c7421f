-- ===== src/Scope/Ending.antt =====
-- src/network/message.cpp: the loops of both tokenizers end.
use octopusmq_cpp.Base.{ℕ, ◌+◌, ◌≤◌, ◌≡◌, some, [], Text, length, arith}
use octopusmq_cpp.Scope.{filter_loop, topic_loop}
use octopusmq_cpp.Scope.Split.{split, topic_loop-split}
use octopusmq_cpp.Scope.Tokens.{levels_ok, checked, filter_loop-split}

-- The loops over positions of both tokenizers end, for every text: after at most two rounds more
-- than the text has characters, however many more are allowed. The loop for topics has cut the text
-- at every slash then; the loop for filters has, too, unless a level is not allowed, and otherwise
-- has no tokens.
pub tokenizers_end :
    (s : Text) (rounds : ℕ)
    → length s + 2 ≤ rounds
    → (topic_loop rounds s 0 [] ≡ some (split s))
      × (filter_loop rounds s 0 [] ≡ some (checked (levels_ok (split s)) (split s)))
tokenizers_end s rounds h = (
  topic_loop-split rounds s 0 [] (omega arith) (omega arith),
  filter_loop-split rounds s 0 [] (omega arith) (omega arith),
)

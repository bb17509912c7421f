-- ===== src/Json.antt =====
-- What src/core/settings.cpp and src/network use of nlohmann::json, as a parameter of the model.
pub mod Reference
use octopusmq_cpp.Base.{ℕ, Option, List, Text}

pub record Json : Type 1 where
  pub Value : Type 0
  -- `find`, `contains` and `operator[]` of a key; `none` also for what is no object.
  pub find : Text → Value → Option Value
  -- `is_string` with `get<string>`, and so on.
  pub get_string : Value → Option Text
  pub get_unsigned : Value → Option ℕ
  pub get_array : Value → Option (List Value)

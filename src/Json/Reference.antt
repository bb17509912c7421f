-- ===== src/Json/Reference.antt =====
-- The parameter `Json` can be met: JSON values as a tree.
use octopusmq_cpp.Base.{ℕ, Option, none, some, List, [], ◌∷◌, if◌then◌else◌, Text, text_eq}
use octopusmq_cpp.Json.{Json}

mutual
  pub data Value : Type 0 where
    text : Text → Value
    number : ℕ → Value
    array : Values → Value
    object : Fields → Value

  pub data Values : Type 0 where
    end : Values
    item : Value → Values → Values

  pub data Fields : Type 0 where
    no_more : Fields
    field : Text → Value → Fields → Fields

abbrev items : Values → List Value
items end = []
items (item v vs) = v ∷ items vs

abbrev in_fields : Text → Fields → Option Value
in_fields name no_more = none
in_fields name (field n v fs) = if text_eq name n then some v else in_fields name fs

abbrev in_object : Text → Value → Option Value
in_object name (object fs) = in_fields name fs
in_object name _ = none

abbrev as_text : Value → Option Text
as_text (text s) = some s
as_text _ = none

abbrev as_number : Value → Option ℕ
as_number (number n) = some n
as_number _ = none

abbrev as_array : Value → Option (List Value)
as_array (array vs) = some (items vs)
as_array _ = none

abbrev pub json : Json
json = record {
  Value = Value;
  find = in_object;
  get_string = as_text;
  get_unsigned = as_number;
  get_array = as_array;
}

-- ===== src/Error.antt =====
-- src/core/error.hpp: the exceptions, one constructor for each of their constructors, and what they
-- say.
use octopusmq_cpp.Base.{◌≡◌, refl, Bool, true, false, ◌++◌, Text, codes}

pub data Error : Type 0 where
  adapter_not_initialized : Error
  adapter_named_not_initialized : (name : Text) → Error
  field_type field_range missing_field unknown_protocol invalid_topic_filter : Text → Error
  field_encapsulated : (field_name : Text) → Text → Error
  invalid_invocation : (fname : Text) → Error
  adapter_binding : (binding : Text) → (first : Text) → (second : Text) → Error
  adapter_selected_transport : (adapter_name : Text) → Error
  adapter_transport : (adapter_name : Text) → (protocol_name : Text) → Error
  adapter_transport_named :
      (adapter_name : Text) → (protocol_name : Text) → (transport_name : Text) → Error
  -- `std::runtime_error`, with its text.
  runtime : Text → Error
  -- An exception of another class of the standard library, of boost or of nlohmann::json.
  other : Text → Error

unfoldable pub what : Error → Text
what adapter_not_initialized = codes "adapter is not initialized."
what (adapter_named_not_initialized name) =
    codes "adapter '" ++ name ++ codes "' is not initialized."
what (field_range name) = codes "value of '" ++ name ++ codes "' is out of range."
what (field_encapsulated field_name text) =
    codes "error in field '" ++ field_name ++ codes "': " ++ text ++ codes "."
what (invalid_invocation fname) = codes "invalid invocation of function '" ++ fname ++ codes "'."
what (adapter_selected_transport adapter_name) =
    codes "adapter '"
    ++ adapter_name
    ++ codes "': selected protocol does not support specified transport."
what (adapter_transport_named adapter_name protocol_name transport_name) =
    codes "adapter '"
    ++ adapter_name
    ++ codes "': "
    ++ protocol_name
    ++ codes " protocol does not support "
    ++ transport_name
    ++ codes " transport."
what (field_type name) = codes "field '" ++ name ++ codes "' has a wrong type."
what (missing_field name) = codes "filed '" ++ name ++ codes "' is missing from settings."
what (unknown_protocol name) = codes "unknown protocol: '" ++ name ++ codes "'."
what (invalid_topic_filter topic) = codes "invalid topic filter '" ++ topic ++ codes "'."
what (adapter_binding binding first second) =
    codes "binding collision in '"
    ++ second
    ++ codes "' and '"
    ++ first
    ++ codes "': "
    ++ binding
    ++ codes "."
what (adapter_transport adapter_name protocol_name) =
    codes "adapter '"
    ++ adapter_name
    ++ codes "': "
    ++ protocol_name
    ++ codes " protocol does not support specified transport."
what (runtime text) = text
what (other text) = text

-- Does `catch (const std::runtime_error &)` take it? A `std::range_error` is one, too.
unfoldable pub is_runtime : Error → Bool
is_runtime (other text) = false
is_runtime _ = true

-- How a call ends: by an exception, or with what it returns.
pub data Result {κ} (Value : Type κ) : Type κ where
  throws : Error → Result Value
  returns : Value → Result Value

infixl 5 ◌>>=◌ ◌>>◌
unfoldable pub ◌>>=◌ {κ ℓ} :
    {Before : Type κ} {After : Type ℓ}
    → Result Before
    → (next : Before → Result After) → Result After
throws thrown >>= next = throws thrown
returns x >>= next = next x

abbrev pub ◌>>◌ {κ} :
    {After : Type κ} (first : Result (Unit {0})) (next : Result After) → Result After
first >> next = first >>= λ nothing. next

-- `if (not test) throw …`.
abbrev pub require : (test : Bool) → Error → Result (Unit {0})
require false thrown = throws thrown
require true thrown = returns tt

-- A chain of calls that returns: what its first call returned, and that the others did.
pub >>=-eq-returns {κ ℓ} :
    {Before : Type κ} {After : Type ℓ} (call : Result Before) (next : Before → Result After)
    {last : After}
    → (call >>= next) ≡ returns last
    → (x : Before) × (call ≡ returns x) × (next x ≡ returns last)
unfolding ◌>>=◌
>>=-eq-returns (throws thrown) next e = cc
>>=-eq-returns (returns x) next e = (x, refl, e)

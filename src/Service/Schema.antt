-- ===== src/Service/Schema.antt =====
-- internal/app/service.go: validateOutputAgainstSchema. An output that is nil is read as `null`;
-- maps, slices and scalars are those that `Json` has.
use underpass_runtime.Base.{
  Bool, true, false, not, Option, none, some, List, [], ◌∷◌, ◌||◌, is_empty, if◌then◌else◌,
}
use underpass_runtime.Text.{Text, codes, text_eq}
use underpass_runtime.Json.{Json, Members, null, bool, num, str, arr, obj, field_of}
use underpass_runtime.Domain.{Message, plain, missing_field, invalid_field, type_mismatch}

-- outputSchema; a property is its name and its type
pub record OutputSchema : Type 0 where
  pub type_name : Text
  pub required : List Text
  pub properties : List (Text × Text)

abbrev is_obj : Json → Bool
is_obj (obj ms) = true
is_obj _ = false

abbrev is_arr : Json → Bool
is_arr (arr xs) = true
is_arr _ = false

abbrev is_str : Json → Bool
is_str (str s) = true
is_str _ = false

abbrev is_bool : Json → Bool
is_bool (bool b) = true
is_bool _ = false

abbrev is_whole : Json → Bool
is_whole (num n whole) = whole
is_whole _ = false

abbrev is_num : Json → Bool
is_num (num n whole) = true
is_num _ = false

-- the switch; a type that the schema language does not have matches everything
unfoldable pub matches_schema_type : Json → Text → Bool
matches_schema_type value t =
    if text_eq t (codes "object")
    then is_obj value
    else if text_eq t (codes "array")
    then is_arr value
    else if text_eq t (codes "string")
    then is_str value
    else if text_eq t (codes "boolean")
    then is_bool value
    else if text_eq t (codes "integer")
    then is_whole value
    else if text_eq t (codes "number")
    then is_num value
    else true

unfoldable pub validate_required_fields : Members → List Text → Option Message
validate_required_fields ms [] = none
validate_required_fields ms (field ∷ rest) = elim (field_of ms field) [
  | none ↦ some (missing_field field)
  | some value ↦ validate_required_fields ms rest
]

-- one property: a missing one, and one with no type, is not checked
unfoldable pub property_fails : Option Json → Text → Bool
property_fails none t = false
property_fails (some value) t = if is_empty t then false else not (matches_schema_type value t)

-- the loop over the map of properties, in some order
unfoldable pub validate_schema_properties : Members → List (Text × Text) → Option Message
validate_schema_properties ms [] = none
validate_schema_properties ms ((key, t) ∷ rest) =
    let later = validate_schema_properties ms rest in
    if property_fails (field_of ms key) t then some (invalid_field key) else later

unfoldable pub validate_object : OutputSchema → Json → Option Message
validate_object schema (obj ms) = elim (validate_required_fields ms schema.required) [
  | none ↦ validate_schema_properties ms schema.properties
  | some message ↦ some message
]
validate_object schema _ = some (plain "tool output must be an object")

unfoldable pub validate_against : OutputSchema → Json → Option Message
validate_against schema output =
    if is_empty schema.type_name
    then none
    else if not (matches_schema_type output schema.type_name)
    then some (type_mismatch schema.type_name)
    else if text_eq schema.type_name (codes "object")
    then validate_object schema output
    else none

unfoldable pub or_null : Option Json → Json
or_null none = null
or_null (some value) = value

-- `decode` is `json.Unmarshal` into an outputSchema (none: an error)
unfoldable pub validate_output_against_schema :
    (Text → Option OutputSchema) → Text → Option Json → Option Message
validate_output_against_schema decode raw output =
    if is_empty raw || text_eq raw (codes "null") then none else elim (decode raw) [
      | none ↦ some (plain "invalid output schema")
      | some schema ↦ validate_against schema (or_null output)
    ]

-- ===== src/Policy/Fields.antt =====
-- internal/adapters/policy/static_policy.go: extractFieldValues, extractStringFieldValues and
-- checkFieldValuesAllowed, which take the strings of a field out of the decoded arguments.
use underpass_runtime.Base.{
  String, Bool, Option, none, some, List, [], ◌∷◌, is_empty, if◌then◌else◌,
}
use underpass_runtime.Text.{Text, trim_space, split}
use underpass_runtime.Json.{Json, Items, str, arr, nil, cons, lookup_field}
use underpass_runtime.Policy.Decision.{Verdict, each}

-- the entries of an array of strings; none where an entry is no string
unfoldable pub strings_of : Items → Option (List Text)
strings_of nil = some []
strings_of (cons (str s) rest) = elim (strings_of rest) [ none ↦ none | some ss ↦ some (s ∷ ss) ]
strings_of (cons _ rest) = none

unfoldable pub array_values : Json → Option (List Text)
array_values (arr items) = strings_of items
array_values _ = none

unfoldable pub single_value : Json → Option (List Text)
single_value (str s) = some (s ∷ [])
single_value _ = none

unfoldable pub string_or_array : Json → Option (List Text)
string_or_array (str s) = some (s ∷ [])
string_or_array (arr items) = strings_of items
string_or_array _ = none

-- what is found at a dotted field name; a missing field has no values, and none is an error
unfoldable pub values_at : (Json → Option (List Text)) → Json → Text → Option (List Text)
values_at read payload name =
    let path = trim_space name in
    if is_empty path
    then some []
    else elim (lookup_field payload (split b'.' path)) [ none ↦ some [] | some v ↦ read v ]

unfoldable pub extract_field_values : Json → Text → Bool → Option (List Text)
extract_field_values payload name multi =
    values_at (if multi then array_values else single_value) payload name

unfoldable pub extract_string_field_values : Json → Text → Option (List Text)
extract_string_field_values payload name = values_at string_or_array payload name

-- a value that is not blank must pass the test, once trimmed
unfoldable pub check_value : (Text → Bool) → String → Text → Verdict
check_value matcher deny_reason value =
    let trimmed = trim_space value in
    if is_empty trimmed then none else if matcher trimmed then none else some deny_reason

unfoldable pub check_values : String → (Text → Bool) → String → Option (List Text) → Verdict
check_values error_reason matcher deny_reason none = some error_reason
check_values error_reason matcher deny_reason (some values) =
    each (check_value matcher deny_reason) values

unfoldable pub check_field_values_allowed : Json → Text → Bool → (Text → Bool) → String → Verdict
check_field_values_allowed payload name multi matcher deny_reason =
    check_values "invalid field payload" matcher deny_reason
      (extract_field_values payload name multi)

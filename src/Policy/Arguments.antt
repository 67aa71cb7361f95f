-- ===== src/Policy/Arguments.antt =====
-- internal/adapters/policy/static_policy.go: the checks on paths and on plain arguments.
use underpass_runtime.Base.{
  ℕ, Bool, true, false, not, ◌&&◌, ◌||◌, Option, none, some, List, [], ◌∷◌, ◌++◌, ltb, length, any,
  is_empty, if◌then◌else◌,
}
use underpass_runtime.Text.{Text, text_eq, trim_space, has_prefix, contains}
use underpass_runtime.Text.FilePath.{clean, dot, dot_dot, slash}
use underpass_runtime.Json.{Json}
use underpass_runtime.Domain.{PathField, ArgField}
use underpass_runtime.Policy.Decision.{Host, Verdict, each, no_args, with_payload}
use underpass_runtime.Policy.Fields.{extract_field_values}

-- one entry of the allowlist against a clean path
unfoldable pub path_under : Text → Text → Bool
path_under path allowed =
    if text_eq allowed dot
    then not (has_prefix path dot_dot)
    else text_eq path allowed || has_prefix path (allowed ++ (slash ∷ []))

unfoldable pub is_path_within_allowlist : Text → List Text → Bool
is_path_within_allowlist path allowlist =
    any (λ allowed. path_under (clean path) (clean allowed)) allowlist

unfoldable pub check_path : List Text → Text → Verdict
check_path allowed [] = none
check_path allowed (c ∷ path) =
    if is_path_within_allowlist (c ∷ path) allowed then none else some "path outside allowed_paths"

unfoldable pub check_paths : List Text → Option (List Text) → Verdict
check_paths allowed none = some "invalid path field payload"
check_paths allowed (some paths) = each (check_path allowed) paths

unfoldable pub check_path_field_values : List Text → Json → PathField → Verdict
check_path_field_values allowed payload field =
    check_paths allowed (extract_field_values payload field.field field.multi)

-- no allowlist is the whole workspace
unfoldable pub or_workspace : List Text → List Text
or_workspace [] = dot ∷ []
or_workspace (p ∷ ps) = p ∷ ps

unfoldable pub args_within_allowed_paths : Host → Text → List Text → List PathField → Verdict
args_within_allowed_paths host raw allowed_paths fields =
    if is_empty fields || no_args raw
    then none
    else with_payload host raw
        (λ payload. each (check_path_field_values (or_workspace allowed_paths) payload) fields)

unfoldable pub has_denied_char : Text → List Text → Bool
has_denied_char value chars = any (λ c. not (is_empty c) && contains value c) chars

-- hasDeniedPrefix and hasAllowedPrefix
unfoldable pub has_some_prefix : Text → List Text → Bool
has_some_prefix value prefixes = any (λ p. not (is_empty p) && has_prefix value p) prefixes

unfoldable pub is_in_allowed_values : Text → List Text → Bool
is_in_allowed_values value allowed = any (λ a. text_eq value a) allowed

-- `limit > 0 && n > limit`
unfoldable pub exceeds : ℕ → ℕ → Bool
exceeds limit n = ltb 0 limit && ltb limit n

unfoldable pub value_listed : Text → ArgField → Bool
value_listed value field =
    if not (is_empty field.allowed_values)
    then is_in_allowed_values value field.allowed_values
    else if not (is_empty field.allowed_prefix)
    then has_some_prefix value field.allowed_prefix
    else true

unfoldable pub arg_value_allowed : Text → ArgField → Bool
arg_value_allowed value field =
    let trimmed = trim_space value in
    if is_empty trimmed
    then false
    else if exceeds field.max_length (length trimmed)
    then false
    else if has_denied_char trimmed field.deny_characters
    then false
    else if has_some_prefix trimmed field.denied_prefix
    then false
    else value_listed trimmed field

unfoldable pub check_arg_value : ArgField → Text → Verdict
check_arg_value field value =
    if arg_value_allowed value field then none else some "argument not allowed by policy"

unfoldable pub check_arg_values : ArgField → Option (List Text) → Verdict
check_arg_values field none = some "invalid args field payload"
check_arg_values field (some values) =
    if exceeds field.max_items (length values)
    then some "argument list exceeds allowed length"
    else each (check_arg_value field) values

unfoldable pub check_arg_field : Json → ArgField → Verdict
check_arg_field payload field =
    check_arg_values field (extract_field_values payload field.field field.multi)

unfoldable pub args_allowed_by_policy : Host → Text → List ArgField → Verdict
args_allowed_by_policy host raw fields =
    if is_empty fields || no_args raw
    then none
    else with_payload host raw (λ payload. each (check_arg_field payload) fields)

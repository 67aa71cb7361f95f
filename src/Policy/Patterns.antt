-- ===== src/Policy/Patterns.antt =====
-- internal/adapters/policy/static_policy.go: the patterns of the allowlists. A Go map used as a set
-- is the list of its keys.
use underpass_runtime.Base.{
  Bool, true, false, ◌&&◌, ◌||◌, List, [], ◌∷◌, any, is_empty, if◌then◌else◌,
}
use underpass_runtime.Text.{
  Text, codes, text_eq, trim_space, split, has_prefix, has_suffix, trim_suffix, contains, member,
}
use underpass_runtime.Domain.{Metadata, meta_get}

-- the loop over the items between commas
unfoldable pub collect : List Text → List Text
collect [] = []
collect (item ∷ items) =
    let rest = collect items in
    let candidate = trim_space item in
    if is_empty candidate || member candidate rest then rest else candidate ∷ rest

unfoldable pub parse_allowlist : Metadata → Text → List Text
parse_allowlist metadata key =
    let raw = trim_space (meta_get metadata key) in
    if is_empty raw then [] else collect (split b',' raw)

unfoldable pub parse_allowed_profiles : Metadata → List Text
parse_allowed_profiles metadata = parse_allowlist metadata (codes "allowed_profiles")

unfoldable pub parse_allowed_nats_subjects : Metadata → List Text
parse_allowed_nats_subjects metadata = parse_allowlist metadata (codes "allowed_nats_subjects")

-- `strings.Split(pattern, "*")` in two parts
unfoldable pub around_star : List Text → Text → Bool → Bool
around_star (before ∷ after ∷ []) value otherwise =
    has_prefix value before && has_suffix value after
around_star _ value otherwise = otherwise

unfoldable pub ends_as_prefix : Text → Bool
ends_as_prefix pattern =
    has_suffix pattern (codes ".")
    || has_suffix pattern (codes ":")
    || has_suffix pattern (codes "/")

unfoldable pub prefix_style : Text → Text → Bool
prefix_style pattern value = if ends_as_prefix pattern then has_prefix value pattern else false

-- wildcardPatternMatch on what is trimmed
unfoldable pub wildcard_trimmed : Text → Text → Bool
wildcard_trimmed pattern value =
    if is_empty pattern || is_empty value
    then false
    else if text_eq pattern (codes "*") || text_eq pattern value
    then true
    else if has_suffix pattern (codes ".>")
    then has_prefix value (trim_suffix pattern (codes ">"))
    else if contains pattern (codes "*")
    then around_star (split b'*' pattern) value (prefix_style pattern value)
    else prefix_style pattern value

unfoldable pub wildcard_pattern_match : Text → Text → Bool
wildcard_pattern_match pattern value = wildcard_trimmed (trim_space pattern) (trim_space value)

unfoldable pub pattern_allowlist_match : Text → List Text → Bool
pattern_allowlist_match value allowlist =
    any (λ pattern. wildcard_pattern_match pattern value) allowlist

unfoldable pub prefix_allowlist_match : Text → List Text → Bool
prefix_allowlist_match value allowlist =
    any (λ prefix. text_eq prefix (codes "*") || has_prefix value prefix) allowlist

-- the loop of natsSubjectMatch, on what is left of both token lists
unfoldable pub nats_tokens_match : List Text → List Text → Bool
nats_tokens_match [] [] = true
nats_tokens_match [] (s ∷ ss) = false
nats_tokens_match (p ∷ ps) [] = text_eq p (codes ">")
nats_tokens_match (p ∷ ps) (s ∷ ss) =
    if text_eq p (codes ">")
    then true
    else (text_eq p (codes "*") || text_eq s p) && nats_tokens_match ps ss

unfoldable pub nats_subject_match : Text → Text → Bool
nats_subject_match pattern subject =
    text_eq pattern subject
    || nats_tokens_match (split b'.' (trim_space pattern)) (split b'.' (trim_space subject))

unfoldable pub nats_subject_allowed : Text → List Text → Bool
nats_subject_allowed subject allowlist =
    any (λ pattern. nats_subject_match pattern subject) allowlist

unfoldable pub head_or_empty : List Text → Text
head_or_empty [] = []
head_or_empty (w ∷ ws) = w

unfoldable pub registry_of : List Text → Text
registry_of [] = []
registry_of (w ∷ []) = codes "docker.io"
registry_of (w ∷ v ∷ ws) =
    let first = trim_space w in
    if contains first (codes ".") || contains first (codes ":") || text_eq first (codes "localhost")
    then first
    else codes "docker.io"

unfoldable pub extract_registry_from_image_ref : Text → Text
extract_registry_from_image_ref image_ref =
    let trimmed = trim_space image_ref in
    if is_empty trimmed then [] else registry_of (split b'/' (head_or_empty (split b'@' trimmed)))

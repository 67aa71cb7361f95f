-- ===== src/Policy/Values.antt =====
-- What `authorize` guarantees of the plain arguments of a tool that is no specialist one.
use underpass_runtime.Base.{
  ℕ, ◌≤◌, ◌<◌, String, ◌≡◌, ◌≢◌, refl, ◌⊎◌, inl, inr, Bool, true, false, not, ◌&&◌, ◌||◌, Option,
  none, some, List, [], ◌∷◌, Any, All, any, arith, length, is_empty, ||-eq-true, if◌then◌else◌,
}
use underpass_runtime.Text.{Text, text_eq, trim_space, has_prefix, contains}
use underpass_runtime.Text.Laws.{eq_of_text_eq}
use underpass_runtime.Json.{Json}
use underpass_runtime.Domain.{ArgField}
use underpass_runtime.Policy.Decision.{Host, PolicyInput, Verdict, no_args}
use underpass_runtime.Policy.Fields.{extract_field_values}
use underpass_runtime.Policy.Arguments.{
  has_denied_char, has_some_prefix, is_in_allowed_values, exceeds, value_listed, arg_value_allowed,
  check_arg_value, check_arg_values, check_arg_field, args_allowed_by_policy,
}
use underpass_runtime.Policy.Authorize.{authorize, authorize_arguments}
use underpass_runtime.Policy.Combine.{passes_check}
use underpass_runtime.Policy.Confinement.{IsOrdinary, ordinary_arguments, each-All, loop_of}

-- A limit of 0 is none.
abbrev pub Within : ℕ → ℕ → Type 0
Within limit n = 0 < limit → n ≤ limit

exceeds-Within : (limit n : ℕ) → exceeds limit n ≡ false → Within limit n
unfolding exceeds
exceeds-Within limit n h = ground arith

-- No text of the list, but an empty one, is as the relation says.
abbrev pub Never : (Text → Bool) → List Text → Type 0
Never test texts = All (λ t. (t ≡ []) ⊎ (test t ≡ false)) texts

abbrev pub Sometimes : (Text → Bool) → List Text → Type 0
Sometimes test texts = Any (λ t. (t ≢ []) × (test t ≡ true)) texts

-- What the rules of an argument field say of one of its values.
pub record IsAllowed (field : ArgField) (value : Text) : Type 0 where
  pub filled : value ≢ []
  pub short : Within field.max_length (length value)
  pub clean_chars : Never (contains value) field.deny_characters
  pub clean_prefix : Never (has_prefix value) field.denied_prefix
  pub listed : field.allowed_values ≢ [] → Any (λ a. value ≡ a) field.allowed_values
  pub prefixed :
      field.allowed_values ≡ []
      → field.allowed_prefix ≢ []
      → Sometimes (has_prefix value) field.allowed_prefix

is_empty_eq : (t : Text) → is_empty t ≡ true → t ≡ []
is_empty_eq [] h = refl
is_empty_eq (c ∷ t) h = absurd (cc)

is_empty_ne : {A : Type 0} (xs : List A) → is_empty xs ≡ false → xs ≢ []
is_empty_ne xs h e = let g = rw e at h in cc

ne_is_empty : {A : Type 0} (xs : List A) → xs ≢ [] → is_empty xs ≡ false
ne_is_empty [] n = absurd (n refl)
ne_is_empty (x ∷ xs) n = refl

-- A disjunction that fails, part by part.
both_false : (a b : Bool) → (a || b) ≡ false → (a ≡ false) × (b ≡ false)
both_false a b h = ground arith

some_false : (a b : Bool) → (not a && b) ≡ false → (a ≡ true) ⊎ (b ≡ false)
some_false true b h = inl refl
some_false false b h = inr h

both_true : (a b : Bool) → (not a && b) ≡ true → (a ≡ false) × (b ≡ true)
both_true a b h = ground arith

any-Never :
    (test : Text → Bool) (texts : List Text)
    → any (λ t. not (is_empty t) && test t) texts ≡ false
    → Never test texts
unfolding any
any-Never test [] h = tt
any-Never test (t ∷ ts) h =
    let (a, b) = both_false _ _ h in
    (
      elim (some_false (is_empty t) (test t) a) [ inl e ↦ inl (is_empty_eq t e) | inr e ↦ inr e ],
      any-Never test ts b,
    )

any-Sometimes :
    (test : Text → Bool) (texts : List Text)
    → any (λ t. not (is_empty t) && test t) texts ≡ true
    → Sometimes test texts
unfolding any
any-Sometimes test [] h = absurd (cc)
any-Sometimes test (t ∷ ts) h =
    elim (||-eq-true (not (is_empty t) && test t) (any (λ u. not (is_empty u) && test u) ts) h) [
      | inl e ↦ let (a, b) = both_true (is_empty t) (test t) e in inl (is_empty_ne t a, b)
      | inr e ↦ inr (any-Sometimes test ts e)
    ]

any_listed :
    (value : Text) (allowed : List Text)
    → any (λ a. text_eq value a) allowed ≡ true
    → Any (λ a. value ≡ a) allowed
unfolding any
any_listed value [] h = absurd (cc)
any_listed value (a ∷ rest) h = elim (||-eq-true (text_eq value a) _ h) [
  | inl e ↦ inl (eq_of_text_eq value a e)
  | inr e ↦ inr (any_listed value rest e)
]

if_false : (b c : Bool) → (if b then false else c) ≡ true → (b ≡ false) × (c ≡ true)
if_false b c h = ground arith

module _ (field : ArgField) (value : Text) (h : value_listed value field ≡ true) where
  listed_value : field.allowed_values ≢ [] → Any (λ a. value ≡ a) field.allowed_values
  unfolding value_listed is_in_allowed_values
  listed_value n = any_listed value field.allowed_values (rw (ne_is_empty _ n) at h)

  prefixed_value :
      field.allowed_values ≡ []
      → field.allowed_prefix ≢ []
      → Sometimes (has_prefix value) field.allowed_prefix
  unfolding value_listed has_some_prefix
  prefixed_value e n =
      any-Sometimes (has_prefix value) field.allowed_prefix (rw (e, ne_is_empty _ n) at h)

IsAllowed-value :
    (field : ArgField) (value : Text)
    → arg_value_allowed value field ≡ true
    → IsAllowed field (trim_space value)
unfolding arg_value_allowed has_denied_char has_some_prefix
IsAllowed-value field value h =
    let (a, h1) = if_false _ _ h in
    let (b, h2) = if_false _ _ h1 in
    let (c, h3) = if_false _ _ h2 in
    let (d, h4) = if_false _ _ h3 in
    record {
      filled = is_empty_ne _ a;
      short = exceeds-Within _ _ b;
      clean_chars = any-Never (contains (trim_space value)) _ c;
      clean_prefix = any-Never (has_prefix (trim_space value)) _ d;
      listed = listed_value field (trim_space value) h4;
      prefixed = prefixed_value field (trim_space value) h4;
    }

-- The values of an argument field can be read, are no more than its limit, and each, trimmed, is as
-- the rules of the field say.
abbrev pub ArgsAllowed : Json → ArgField → Type 0
ArgsAllowed payload field =
    (values : List Text) × (extract_field_values payload field.field field.multi ≡ some values)
    × Within field.max_items (length values)
    × All (λ v. IsAllowed field (trim_space v)) values

if_some : (b : Bool) (reason : String) → (if b then none else some reason) ≡ none → b ≡ true
if_some true reason h = refl
if_some false reason h = absurd (cc)

if_none :
    (b : Bool) (reason : String) (v : Verdict)
    → (if b then some reason else v) ≡ none
    → (b ≡ false) × (v ≡ none)
if_none true reason v h = absurd (cc)
if_none false reason v h = (refl, h)

checked_value :
    (field : ArgField) (value : Text)
    → check_arg_value field value ≡ none
    → IsAllowed field (trim_space value)
unfolding check_arg_value
checked_value field value h = IsAllowed-value field value (if_some _ _ h)

checked_values :
    (field : ArgField) (o : Option (List Text))
    → check_arg_values field o ≡ none
    → (values : List Text) × (o ≡ some values)
      × Within field.max_items (length values)
      × All (λ v. IsAllowed field (trim_space v)) values
unfolding check_arg_values
checked_values field none h = absurd (cc)
checked_values field (some values) h =
    let (few, each_passes) = if_none _ _ _ h in
    (
      values,
      refl,
      exceeds-Within _ _ few,
      each-All (check_arg_value field) _ (checked_value field) values each_passes,
    )

checked_field :
    (payload : Json) (field : ArgField)
    → check_arg_field payload field ≡ none
    → ArgsAllowed payload field
unfolding check_arg_field
checked_field payload field h = checked_values field _ h

checked_fields :
    (host : Host) (raw : Text) (fields : List ArgField) (payload : Json)
    → no_args raw ≡ false
    → host.unmarshal raw ≡ some payload
    → args_allowed_by_policy host raw fields ≡ none
    → All (ArgsAllowed payload) fields
unfolding args_allowed_by_policy
checked_fields host raw [] payload n u h = tt
checked_fields host raw (f ∷ fs) payload n u h =
    each-All (check_arg_field payload) _ (checked_field payload) (f ∷ fs)
      (loop_of host raw payload (no_args raw) _ n u h)

-- When the engine permits an ordinary tool with arguments that decode, the values of every argument
-- field with rules can be read, and are within its limit on their number; each, trimmed, is not
-- empty, is within the limit on its length, contains no denied text, begins with no denied prefix,
-- is one of the allowed values if there are any, and otherwise begins with an allowed prefix if
-- there are any.
pub authorize-ArgsAllowed :
    (host : Host) (input : PolicyInput) (payload : Json)
    → IsOrdinary input
    → no_args input.args ≡ false
    → host.unmarshal input.args ≡ some payload
    → (authorize host input).allow ≡ true
    → All (ArgsAllowed payload) input.capability.policy.arg_fields
unfolding authorize_arguments
authorize-ArgsAllowed host input payload o n u h =
    let (e1, h1) = passes_check _ _ (ordinary_arguments host input o h) in
    let (e2, h2) = passes_check _ _ h1 in checked_fields host input.args _ payload n u e2

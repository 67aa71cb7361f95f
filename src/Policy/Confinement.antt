-- ===== src/Policy/Confinement.antt =====
-- What `authorize` guarantees of the arguments of a tool that is no specialist one: every path that
-- it declares lies under an allowed path, and every name that a restricted allowlist governs passes.
use underpass_runtime.Base.{
  String, ◌≡◌, refl, ◌⊎◌, inl, inr, Bool, true, false, not, ◌||◌, Option, none, some, List, [], ◌∷◌,
  ◌++◌, Any, All, any, arith, Bool-cases, ||-eq-true, if◌then◌else◌,
}
use mathlib.Core.List.{append_assoc}
use underpass_runtime.Text.{Text, text_eq, trim_space, has_prefix, split}
use underpass_runtime.Text.FilePath.{clean, dot, dot_dot, slash}
use underpass_runtime.Text.Laws.{eq_of_text_eq, has_prefix_rest, split-append}
use underpass_runtime.Json.{Json}
use underpass_runtime.Domain.{PathField}
use underpass_runtime.Policy.Decision.{
  Host, PolicyInput, Verdict, each, no_args, with_payload, ◌<|>◌,
}
use underpass_runtime.Policy.Fields.{extract_field_values}
use underpass_runtime.Policy.Arguments.{
  path_under, is_path_within_allowlist, check_path, check_paths, check_path_field_values,
  or_workspace, args_within_allowed_paths,
}
use underpass_runtime.Policy.Profiles.{
  authorize_specialist_capability, is_saturation_tool, is_notify_tool,
}
use underpass_runtime.Policy.Authorize.{authorize, authorize_arguments}
use underpass_runtime.Policy.Combine.{passes_check, each-none}
use underpass_runtime.Policy.Specialists.{authorize_last}

-- A clean path lies under a clean allowed one: below the workspace with no leading "..", or with
-- the allowed path's segments in front of its own.
abbrev pub Under : Text → Text → Type 0
Under path allowed =
    ((allowed ≡ dot) × (has_prefix path dot_dot ≡ false))
    ⊎ ((path ≡ allowed)
        ⊎ ((rest : Text) × (split slash path ≡ split slash allowed ++ split slash rest)))

path_under-Under : (path allowed : Text) → path_under path allowed ≡ true → Under path allowed
unfolding path_under
path_under-Under path allowed h = elim (Bool-cases (text_eq allowed dot)) [
  | inl e ↦ inl (eq_of_text_eq allowed dot e, not_true _ (rw e at h))
  | inr e ↦ inr (below (rw e at h))
]
  where
    not_true : (b : Bool) → not b ≡ true → b ≡ false
    not_true b g = ground arith

    deeper :
        (r : Text)
        → path ≡ (allowed ++ (slash ∷ [])) ++ r
        → split slash path ≡ split slash allowed ++ split slash r
    deeper r g = rw (g, append_assoc allowed (slash ∷ []) r) (split-append slash allowed r)

    below :
        (text_eq path allowed || has_prefix path (allowed ++ (slash ∷ []))) ≡ true
        → (path ≡ allowed)
          ⊎ ((rest : Text) × (split slash path ≡ split slash allowed ++ split slash rest))
    below g =
        elim (||-eq-true (text_eq path allowed) (has_prefix path (allowed ++ (slash ∷ []))) g) [
          | inl e ↦ inl (eq_of_text_eq path allowed e)
          | inr e ↦
              let (r, k) = has_prefix_rest path (allowed ++ (slash ∷ [])) e in inr (r, deeper r k)
        ]

-- Some entry of the allowlist has the path under it.
abbrev pub IsConfined : List Text → Text → Type 0
IsConfined allowlist path = Any (λ allowed. Under (clean path) (clean allowed)) allowlist

pub within-IsConfined :
    (path : Text) (allowlist : List Text)
    → is_path_within_allowlist path allowlist ≡ true
    → IsConfined allowlist path
unfolding is_path_within_allowlist any
within-IsConfined path [] h = absurd (cc)
within-IsConfined path (a ∷ more) h =
    elim (||-eq-true (path_under (clean path) (clean a)) (is_path_within_allowlist path more) h) [
      | inl e ↦ inl (path_under-Under (clean path) (clean a) e)
      | inr e ↦ inr (within-IsConfined path more e)
    ]

pub if_none : (b : Bool) (reason : String) → (if b then none else some reason) ≡ none → b ≡ true
if_none true reason h = refl
if_none false reason h = cc

-- A loop that refuses nothing satisfies what its check ensures, at every element.
pub each-All {ℓ} :
    {A : Type ℓ} (check : A → Verdict) (P : A → Type 0)
    → ((x : A) → check x ≡ none → P x)
    → (xs : List A) → each check xs ≡ none
    → All P xs
each-All check P sound [] h = tt
each-All check P sound (x ∷ xs) h =
    let (e, g) = each-none check x xs h in (sound x e, each-All check P sound xs g)

check_path_sound :
    (allowed : List Text) (path : Text)
    → check_path allowed path ≡ none
    → (path ≡ []) ⊎ IsConfined allowed path
unfolding check_path
check_path_sound allowed [] h = inl refl
check_path_sound allowed (c ∷ path) h = inr (within-IsConfined (c ∷ path) allowed (if_none _ _ h))

check_paths_sound :
    (allowed : List Text) (o : Option (List Text))
    → check_paths allowed o ≡ none
    → (paths : List Text) × (o ≡ some paths)
      × All (λ path. (path ≡ []) ⊎ IsConfined allowed path) paths
unfolding check_paths
check_paths_sound allowed none h = absurd (cc)
check_paths_sound allowed (some paths) h =
    (paths, refl, each-All (check_path allowed) _ (check_path_sound allowed) paths h)

-- The values of a path field can be read, and each is empty or confined.
abbrev pub PathsConfined : List Text → Json → PathField → Type 0
PathsConfined allowed payload field =
    (paths : List Text) × (extract_field_values payload field.field field.multi ≡ some paths)
    × All (λ path. (path ≡ []) ⊎ IsConfined allowed path) paths

pub loop_of :
    (host : Host) (raw : Text) (payload : Json) (b : Bool) (check : Json → Verdict)
    → b ≡ false
    → host.unmarshal raw ≡ some payload
    → (if b then none else with_payload host raw check) ≡ none
    → check payload ≡ none
unfolding with_payload
loop_of host raw payload b check e u h = let g = rw e at h in rw (u, with_payload) at g

path_field_sound :
    (allowed : List Text) (payload : Json) (field : PathField)
    → check_path_field_values allowed payload field ≡ none
    → PathsConfined allowed payload field
unfolding check_path_field_values
path_field_sound allowed payload field h = check_paths_sound allowed _ h

path_fields_sound :
    (host : Host) (raw : Text) (allowed : List Text) (fields : List PathField) (payload : Json)
    → no_args raw ≡ false
    → host.unmarshal raw ≡ some payload
    → args_within_allowed_paths host raw allowed fields ≡ none
    → All (PathsConfined (or_workspace allowed) payload) fields
unfolding args_within_allowed_paths
path_fields_sound host raw allowed [] payload n u h = tt
path_fields_sound host raw allowed (f ∷ fs) payload n u h =
    each-All (check_path_field_values (or_workspace allowed) payload) _
      (path_field_sound (or_workspace allowed) payload) (f ∷ fs)
      (loop_of host raw payload (no_args raw) _ n u h)

-- The tool has no specialist rule.
abbrev pub IsOrdinary : PolicyInput → Type 0
IsOrdinary input =
    (is_saturation_tool (trim_space input.capability.name) ≡ false)
    × (is_notify_tool (trim_space input.capability.name) ≡ false)

pub ordinary_arguments :
    (host : Host) (input : PolicyInput)
    → IsOrdinary input
    → (authorize host input).allow ≡ true
    → (authorize_arguments host input).allow ≡ true
unfolding authorize_specialist_capability ◌<|>◌
ordinary_arguments host input (s, n) h = rw (s, n) at (authorize_last host input h)

-- When the engine permits an ordinary tool with arguments that decode, every path field of the
-- tool can be read, and each of its paths is empty or lies under an entry of the session's
-- allowlist (the workspace, if the list is empty).
pub authorize-PathsConfined :
    (host : Host) (input : PolicyInput) (payload : Json)
    → IsOrdinary input
    → no_args input.args ≡ false
    → host.unmarshal input.args ≡ some payload
    → (authorize host input).allow ≡ true
    → All
        (PathsConfined (or_workspace input.session.allowed_paths) payload)
        input.capability.policy.path_fields
unfolding authorize_arguments
authorize-PathsConfined host input payload o n u h =
    let (e, g) = passes_check _ _ (ordinary_arguments host input o h) in
    path_fields_sound host input.args input.session.allowed_paths _ payload n u e

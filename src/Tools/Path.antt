-- ===== src/Tools/Path.antt =====
-- internal/adapters/tools/path.go: from the path that a tool is given to the path that it opens, and
-- its agreement with the policy engine's check of paths.
use underpass_runtime.Base.{
  String, ◌≡◌, refl, sym, ap, subst, ◌∙◌, ◌⊎◌, inl, inr, Bool, true, false, not, ◌||◌, none, List,
  [], ◌∷◌, ◌++◌, any, ||-eq-true, arith, if◌then◌else◌,
}
use underpass_runtime.Text.{Text, text_eq, has_prefix, split}
use underpass_runtime.Text.FilePath.{slash, dot, dot_dot, clean, join_path}
use underpass_runtime.Text.FilePath.Normal.{clean_idem}
use underpass_runtime.Domain.{Session, Error, plain}
use underpass_runtime.Policy.Arguments.{
  path_under, is_path_within_allowlist, check_path, or_workspace,
}
use mathlib.Core.List.{append_assoc}
use underpass_runtime.Text.Laws.{eq_of_text_eq, has_prefix_rest, split-append}

-- What resolvePath returns: the path to open, or an error.
pub data Resolution : Type 0 where
  resolved : Text → Resolution
  rejected : Error → Resolution

abbrev pub path_denied : String → Resolution
path_denied reason =
    rejected (record { code = "policy_denied"; message = plain reason; retryable = false })

-- one entry of the allowlist, which is cleaned in the loop
unfoldable pub entry_allows : Text → Text → Bool
entry_allows clean_path clean_allowed =
    if text_eq clean_allowed dot
    then not (has_prefix clean_path dot_dot)
    else text_eq clean_path clean_allowed || has_prefix clean_path (clean_allowed ++ (slash ∷ []))

unfoldable pub path_allowed : Text → List Text → Bool
path_allowed path allowlist =
    any (λ allowed. entry_allows (clean path) (clean allowed)) (or_workspace allowlist)

-- the resolved path is the workspace, or below it
unfoldable pub inside_workspace : Text → Text → Bool
inside_workspace resolved_clean workspace_clean =
    text_eq resolved_clean workspace_clean
    || has_prefix resolved_clean (workspace_clean ++ (slash ∷ []))

unfoldable pub resolve_cleaned : Session → Text → Resolution
resolve_cleaned session cleaned =
    let resolved_clean = clean (join_path session.workspace_path cleaned) in
    if has_prefix cleaned dot_dot
    then path_denied "path escapes workspace"
    else if not (path_allowed cleaned session.allowed_paths)
    then path_denied "path outside allowed_paths"
    else if not (inside_workspace resolved_clean (clean session.workspace_path))
    then path_denied "path escapes workspace"
    else resolved resolved_clean

abbrev pub or_dot : Text → Text
or_dot [] = dot
or_dot (c ∷ path) = c ∷ path

unfoldable pub resolve_path : Session → Text → Resolution
resolve_path session relative_path = resolve_cleaned session (clean (or_dot relative_path))

-- The tools' check of a clean path is the policy engine's check of the path before it was cleaned.
pub path_allowed-clean :
    (path : Text) (allowlist : List Text)
    → path_allowed (clean path) allowlist ≡ is_path_within_allowlist path (or_workspace allowlist)
unfolding path_allowed is_path_within_allowlist entry_allows path_under
path_allowed-clean path allowlist =
    ap
      (λ p.
        any
          (λ allowed.
            if text_eq (clean allowed) dot
            then not (has_prefix p dot_dot)
            else text_eq p (clean allowed) || has_prefix p (clean allowed ++ (slash ∷ [])))
          (or_workspace allowlist))
      (clean_idem path)

-- What a resolved path passed.
pub record IsResolved (session : Session) (path result : Text) : Type 0 where
  pub joined : result ≡ clean (join_path session.workspace_path (clean (or_dot path)))
  pub forward : has_prefix (clean (or_dot path)) dot_dot ≡ false
  pub permitted : check_path (or_workspace session.allowed_paths) path ≡ none
  pub inside :
      (result ≡ clean session.workspace_path)
      ⊎ ((rest : Text) × (split slash result
            ≡ split slash (clean session.workspace_path) ++ split slash rest))

guard_passed :
    (b : Bool) (reason : String) (rest : Resolution) (r : Text)
    → (if b then path_denied reason else rest) ≡ resolved r
    → (b ≡ false) × (rest ≡ resolved r)
guard_passed true reason rest r h = absurd (cc)
guard_passed false reason rest r h = (refl, h)

double_not : (b : Bool) → not b ≡ false → b ≡ true
double_not b h = ground arith

resolved_inj : (a b : Text) → resolved a ≡ resolved b → b ≡ a
resolved_inj a b h = cc

permits :
    (session : Session) (path : Text)
    → path_allowed (clean (or_dot path)) session.allowed_paths ≡ true
    → check_path (or_workspace session.allowed_paths) path ≡ none
unfolding check_path
permits session [] h = refl
permits session (c ∷ path) h =
    rw (sym (path_allowed-clean (c ∷ path) session.allowed_paths) ∙ h) refl

inside_workspace-split :
    (path workspace : Text)
    → inside_workspace path workspace ≡ true
    → (path ≡ workspace)
      ⊎ ((rest : Text) × (split slash path ≡ split slash workspace ++ split slash rest))
unfolding inside_workspace
inside_workspace-split path workspace h =
    elim (||-eq-true (text_eq path workspace) (has_prefix path (workspace ++ (slash ∷ []))) h) [
      | inl e ↦ inl (eq_of_text_eq path workspace e)
      | inr e ↦
          let (r, k) = has_prefix_rest path (workspace ++ (slash ∷ [])) e in
          inr (r, rw (k, append_assoc workspace (slash ∷ []) r) (split-append slash workspace r))
    ]

-- When a tool's path is resolved, the result is the clean join of the workspace and the path; the
-- clean path does not lead upwards; the policy engine's check permits the path for the same
-- session; and the result is the workspace itself, or its segments begin with the workspace's.
pub resolve_path-IsResolved :
    (session : Session) (path result : Text)
    → resolve_path session path ≡ resolved result
    → IsResolved session path result
unfolding resolve_path resolve_cleaned
resolve_path-IsResolved session path result h =
    let (a, h1) = guard_passed _ _ _ _ h in
    let (b, h2) = guard_passed _ _ _ _ h1 in
    let (c, h3) = guard_passed _ _ _ _ h2 in
    let e = resolved_inj _ _ h3 in
    record {
      joined = e;
      forward = a;
      permitted = permits session path (double_not _ b);
      inside = inside_workspace-split result _ (
          subst (λ t. inside_workspace t (clean session.workspace_path) ≡ true) (sym e)
            (double_not _ c));
    }

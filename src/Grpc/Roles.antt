-- ===== src/Grpc/Roles.antt =====
-- internal/grpcapi/auth.go: the roles that a header lists.
use underpass_runtime.Base.{
  ◌≡◌, inl, inr, Bool, true, false, not, ◌&&◌, ◌||◌, List, [], ◌∷◌, is_empty, Bool-cases, map,
  arith, ap, ◌∙◌, if◌then◌else◌,
}
use underpass_runtime.Text.{Text, text_eq, trim_space, split, member}
use underpass_runtime.Text.Laws.{text_eq_refl, eq_of_text_eq}
use underpass_runtime.Grpc.Auth.{parse_entries, parse_roles}

-- No role is listed twice.
abbrev pub IsDistinct : List Text → Type 0
IsDistinct [] = Unit
IsDistinct (r ∷ rs) = (member r rs ≡ false) × IsDistinct rs

-- a role that the entries list, and that is not blank or seen
abbrev wanted : Text → List Text → List Text → Bool
wanted role seen entries =
    not (is_empty role) && not (member role seen) && member role (map trim_space entries)

module _ (role : Text) where
  member-parse_entries :
      (seen entries : List Text)
      → member role (parse_entries seen entries) ≡ wanted role seen entries
  unfolding parse_entries member
  member-parse_entries seen [] = ground arith
  member-parse_entries seen (entry ∷ entries) =
      elim (Bool-cases (text_eq (trim_space entry) role)) [
        | inl same ↦
            let e = eq_of_text_eq (trim_space entry) role same in
            let f = ap (λ (r : Text). is_empty r) e in
            let g = ap (λ r. member r seen) e in
            ground (
              arith,
              member-parse_entries seen entries,
              member-parse_entries (trim_space entry ∷ seen) entries,
            )
        | inr other ↦ ground (
          arith,
          member-parse_entries seen entries,
          member-parse_entries (trim_space entry ∷ seen) entries,
        )
      ]

skipped_or_kept :
    (P : List Text → Type 0) (b : Bool) (xs ys : List Text) → P xs → P ys → P (if b then xs else ys)
skipped_or_kept P true xs ys p q = p
skipped_or_kept P false xs ys p q = q

parse_entries-IsDistinct : (seen entries : List Text) → IsDistinct (parse_entries seen entries)
unfolding parse_entries member
parse_entries-IsDistinct seen [] = tt
parse_entries-IsDistinct seen (entry ∷ entries) =
    skipped_or_kept IsDistinct (is_empty (trim_space entry) || member (trim_space entry) seen) _ _
      (parse_entries-IsDistinct seen entries)
      (
        member-parse_entries (trim_space entry) (trim_space entry ∷ seen) entries ∙ seen_first,
        parse_entries-IsDistinct (trim_space entry ∷ seen) entries,
      )
  where
    seen_first : wanted (trim_space entry) (trim_space entry ∷ seen) entries ≡ false
    seen_first = ground (arith, text_eq_refl (trim_space entry))

-- The roles of a header are the parts between its commas that are not blank, trimmed, each of them
-- once.
pub member-parse_roles :
    (raw role : Text)
    → IsDistinct (parse_roles raw)
      × (member role (parse_roles raw)
          ≡ (not (is_empty role) && member role (map trim_space (split b',' raw))))
unfolding parse_roles member
member-parse_roles raw role = (
  parse_entries-IsDistinct [] (split b',' raw),
  member-parse_entries role [] (split b',' raw) ∙ unseen,
)
  where
    unseen :
        wanted role [] (split b',' raw)
        ≡ (not (is_empty role) && member role (map trim_space (split b',' raw)))
    unseen = ground arith

-- ===== src/Policy/Keys.antt =====
-- What parsing puts into an allowlist.
use underpass_runtime.Base.{
  ◌≡◌, ◌≢◌, refl, sym, ◌∙◌, ◌↔◌, inl, inr, Bool, true, false, ◌||◌, List, [], ◌∷◌, Any, arith,
  is_empty, Bool-cases, ||-eq-true, if◌then◌else◌,
}
use underpass_runtime.Text.{Text, text_eq, trim_space, trim_left, trim_right, split, member}
use underpass_runtime.Text.Laws.{eq_of_text_eq, text_eq_refl}
use underpass_runtime.Domain.{Metadata, meta_get}
use underpass_runtime.Policy.Patterns.{collect, parse_allowlist}

-- The items that trimming leaves as `t`.
abbrev pub Listed : Text → List Text → Type 0
Listed t items = Any (λ item. trim_space item ≡ t) items

collect-Listed : (t : Text) (items : List Text) → member t (collect items) ≡ true → Listed t items
unfolding collect member
collect-Listed t [] h = absurd (cc)
collect-Listed t (item ∷ items) h =
    elim (Bool-cases (is_empty (trim_space item) || member (trim_space item) (collect items))) [
      | inl e ↦ inr (collect-Listed t items (rw e at h))
      | inr e ↦ elim (||-eq-true (text_eq (trim_space item) t) _ (rw e at h)) [
        | inl g ↦ inl (eq_of_text_eq (trim_space item) t g)
        | inr g ↦ inr (collect-Listed t items g)
      ]
    ]

not_empty : (t : Text) → t ≢ [] → is_empty t ≡ false
not_empty [] h = absurd (h refl)
not_empty (c ∷ t) h = refl

Listed-collect :
    (t : Text) (items : List Text) → t ≢ [] → Listed t items → member t (collect items) ≡ true
unfolding collect member
Listed-collect t [] n l = elim l [ ]
Listed-collect t (item ∷ items) n (inl e) = rw (e, not_empty t n) (here _ refl)
  where
    here :
        (b : Bool)
        → member t (collect items) ≡ b
        → member t (if b then collect items else t ∷ collect items) ≡ true
    here true e = e
    here false e = rw (text_eq_refl t)
Listed-collect t (item ∷ items) n (inr l) =
    elim (Bool-cases (is_empty (trim_space item) || member (trim_space item) (collect items))) [
      | inl e ↦ rw e (Listed-collect t items n l)
      | inr e ↦ rw e (ground (arith, Listed-collect t items n l))
    ]

collect_not_empty : (t : Text) (items : List Text) → member t (collect items) ≡ true → t ≢ []
unfolding collect member
collect_not_empty t [] h e = cc
collect_not_empty t (item ∷ items) h e =
    elim (Bool-cases (is_empty (trim_space item) || member (trim_space item) (collect items))) [
      | inl b ↦ collect_not_empty t items (rw b at h) e
      | inr b ↦ elim (||-eq-true (text_eq (trim_space item) t) _ (rw b at h)) [
        | inl g ↦ blank (trim_space item) (eq_of_text_eq (trim_space item) t g ∙ e) b
        | inr g ↦ collect_not_empty t items g e
      ]
    ]
  where
    blank : (u : Text) → u ≡ [] → (is_empty u || member u (collect items)) ≡ false → ⊥
    blank u e b = let g = rw e at b in cc

trim_space-empty : trim_space [] ≡ []
unfolding trim_space trim_left trim_right
trim_space-empty = refl

not-Listed : (t : Text) → t ≢ [] → Listed t (split b',' []) → ⊥
unfolding split
not-Listed t n (inl e) = n (sym e ∙ trim_space-empty)
not-Listed t n (inr l) = l

is_empty_eq : (t : Text) → is_empty t ≡ true → t ≡ []
is_empty_eq [] h = refl
is_empty_eq (c ∷ t) h = absurd (cc)

-- A key is in a parsed allowlist exactly when it is not empty and is one of the items between the
-- commas of the metadata's value, trimmed.
pub parse_allowlist_iff :
    (metadata : Metadata) (key t : Text)
    → (member t (parse_allowlist metadata key) ≡ true)
      ↔ ((t ≢ []) × Listed t (split b',' (trim_space (meta_get metadata key))))
unfolding parse_allowlist
parse_allowlist_iff metadata key t =
    elim (Bool-cases (is_empty (trim_space (meta_get metadata key)))) [
      | inl e ↦ rw e (
        λ h. absurd (member_nil h),
        λ (n, l). absurd (not-Listed t n (rw (is_empty_eq _ e) at l)),
      )
      | inr e ↦
          rw e
            (λ h. (collect_not_empty t _ h, collect-Listed t _ h), λ (n, l). Listed-collect t _ n l)
    ]
  where
    member_nil : member t [] ≡ true → ⊥
    member_nil h = unfold member in cc

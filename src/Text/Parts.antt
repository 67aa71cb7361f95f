-- ===== src/Text/Parts.antt =====
-- Texts that are joined by separators, and what parts they were joined from.
use underpass_runtime.Base.{ℕ, ◌≡◌, refl, sym, ap, ◌∙◌, subst, List, [], ◌∷◌, ◌++◌}
use underpass_runtime.Text.{Text, split}
use underpass_runtime.Text.Laws.{split-append}

-- The separator does not occur in the text.
abbrev pub LacksSeparator : ℕ → Text → Type 0
LacksSeparator sep t = split sep t ≡ t ∷ []

pub append_cancel : (a b c : Text) → a ++ b ≡ a ++ c → b ≡ c
append_cancel [] b c h = h
append_cancel (x ∷ a) b c h = append_cancel a b c (cc)

split_part :
    (sep : ℕ) (u v : Text) → LacksSeparator sep u → split sep (u ++ (sep ∷ v)) ≡ u ∷ split sep v
split_part sep u v h = split-append sep u v ∙ rw h refl

cons_inj : {x y : Text} {xs ys : List Text} → x ∷ xs ≡ y ∷ ys → x ≡ y
cons_inj h = cc

behind_inj : {c d : ℕ} {a b : Text} → c ∷ a ≡ d ∷ b → a ≡ b
behind_inj h = cc

-- The part before the first separator is determined, and so is the rest.
pub part_inj :
    (sep : ℕ) (u u' v v' : Text)
    → LacksSeparator sep u
    → LacksSeparator sep u'
    → u ++ (sep ∷ v) ≡ u' ++ (sep ∷ v')
    → (u ≡ u') × (v ≡ v')
part_inj sep u u' v v' h h' e =
    let same : u ≡ u' =
      cons_inj (sym (split_part sep u v h) ∙ ap (split sep) e ∙ split_part sep u' v' h') in
    let moved : u ++ (sep ∷ v) ≡ u ++ (sep ∷ v') =
      subst (λ x. u ++ (sep ∷ v) ≡ x ++ (sep ∷ v')) (sym same) e in
    (same, behind_inj (append_cancel u (sep ∷ v) (sep ∷ v') moved))

-- Three parts, the first two without the separator.
pub parts_inj :
    (sep : ℕ) (x x' y y' z z' : Text)
    → LacksSeparator sep x
    → LacksSeparator sep x'
    → LacksSeparator sep y
    → LacksSeparator sep y'
    → x ++ (sep ∷ (y ++ (sep ∷ z))) ≡ x' ++ (sep ∷ (y' ++ (sep ∷ z')))
    → (x ≡ x') × (y ≡ y') × (z ≡ z')
parts_inj sep x x' y y' z z' hx hx' hy hy' e =
    let (a, rest) = part_inj sep x x' _ _ hx hx' e in
    let (b, c) = part_inj sep y y' z z' hy hy' rest in (a, b, c)

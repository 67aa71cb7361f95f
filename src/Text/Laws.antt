-- ===== src/Text/Laws.antt =====
-- Laws of the text functions.
use underpass_runtime.Base.{
  ℕ, ◌≡◌, refl, ap, ◌↔◌, inl, inr, true, false, List, [], ◌∷◌, ◌++◌, arith, ◌==◌, ==_iff,
  Bool-cases, &&-eq-true,
}
use underpass_runtime.Text.{
  Text, text_eq, is_space, trim_left, trim_right, trim_space, snoc_space, has_prefix, split,
  push_char,
}

pub text_eq_refl : (s : Text) → text_eq s s ≡ true
unfolding text_eq
text_eq_refl [] = refl
text_eq_refl (c ∷ s) = ground (arith, text_eq_refl s)

pub eq_of_text_eq : (s t : Text) → text_eq s t ≡ true → s ≡ t
unfolding text_eq
eq_of_text_eq [] [] h = refl
eq_of_text_eq [] (d ∷ t) h = cc
eq_of_text_eq (c ∷ s) [] h = cc
eq_of_text_eq (c ∷ s) (d ∷ t) h =
    let (p, q) = &&-eq-true (c == d) (text_eq s t) h in cc ((==_iff c d).0 p, eq_of_text_eq s t q)

pub text_eq_of_eq : (s t : Text) → s ≡ t → text_eq s t ≡ true
text_eq_of_eq s t e = rw e (text_eq_refl t)

pub text_eq_iff : (s t : Text) → (text_eq s t ≡ true) ↔ (s ≡ t)
text_eq_iff s t = (eq_of_text_eq s t, text_eq_of_eq s t)

pub text_eq_flip : (s t : Text) → text_eq s t ≡ false → text_eq t s ≡ false
text_eq_flip s t h = elim (Bool-cases (text_eq t s)) [
  | inr other ↦ other
  | inl same ↦ absurd (cc (eq_of_text_eq t s same, text_eq_refl s))
]

-- A prefix is what an append puts in front.
pub has_prefix-append : (p r : Text) → has_prefix (p ++ r) p ≡ true
unfolding has_prefix
has_prefix-append [] r = refl
has_prefix-append (c ∷ p) r = ground (arith, has_prefix-append p r)

pub has_prefix_rest : (s p : Text) → has_prefix s p ≡ true → (r : Text) × (s ≡ p ++ r)
unfolding has_prefix
has_prefix_rest s [] h = (s, refl)
has_prefix_rest [] (d ∷ p) h = absurd (cc)
has_prefix_rest (c ∷ s) (d ∷ p) h =
    let (e, q) = &&-eq-true (c == d) (has_prefix s p) h in
    let (r, g) = has_prefix_rest s p q in (r, cc ((==_iff c d).0 e, g))

push_char-append :
    (c : ℕ) (w : Text) (ws vs : List Text)
    → push_char c ((w ∷ ws) ++ vs) ≡ push_char c (w ∷ ws) ++ vs
unfolding push_char
push_char-append c w ws vs = refl

pub split_cons : (sep : ℕ) (s : Text) → (w : Text) × (ws : List Text) × (split sep s ≡ w ∷ ws)
unfolding split push_char
split_cons sep [] = ([], [], refl)
split_cons sep (c ∷ s) = elim (Bool-cases (c == sep)) [
  | inl e ↦ ([], split sep s, rw e)
  | inr e ↦ let (w, ws, g) = split_cons sep s in (c ∷ w, ws, rw (e, g))
]

push_char-split-append :
    (sep c : ℕ) (s : Text) (vs : List Text)
    → push_char c (split sep s ++ vs) ≡ push_char c (split sep s) ++ vs
push_char-split-append sep c s vs =
    let (w, ws, g) = split_cons sep s in rw g (push_char-append c w ws vs)

-- A separator between two texts splits them apart.
pub split-append : (sep : ℕ) (u v : Text) → split sep (u ++ (sep ∷ v)) ≡ split sep u ++ split sep v
unfolding split
split-append sep [] v = ground arith
split-append sep (c ∷ u) v = elim (Bool-cases (c == sep)) [
  | inl e ↦ rw e (ap (λ t. [] ∷ t) (split-append sep u v))
  | inr e ↦ rw (e, split-append sep u v) (push_char-split-append sep c u (split sep v))
]

trim_left_idem : (s : Text) → trim_left (trim_left s) ≡ trim_left s
unfolding trim_left
trim_left_idem [] = refl
trim_left_idem (c ∷ s) = ground (arith, trim_left_idem s)

snoc_space_idem :
    (c : ℕ) (s : Text) → trim_right s ≡ s → trim_right (snoc_space c s) ≡ snoc_space c s
unfolding trim_right snoc_space
snoc_space_idem c [] h = ground arith
snoc_space_idem c (d ∷ s) h = rw h

trim_right_idem : (s : Text) → trim_right (trim_right s) ≡ trim_right s
unfolding trim_right
trim_right_idem [] = refl
trim_right_idem (c ∷ s) = snoc_space_idem c (trim_right s) (trim_right_idem s)

trim_left-snoc_space :
    (c : ℕ) (s : Text) → is_space c ≡ false → trim_left (snoc_space c s) ≡ snoc_space c s
unfolding trim_left snoc_space
trim_left-snoc_space c [] h = rw (h, trim_left, h)
trim_left-snoc_space c (d ∷ s) h = rw h

trim_left-trim_right : (s : Text) → trim_left (trim_right (trim_left s)) ≡ trim_right (trim_left s)
unfolding trim_left trim_right
trim_left-trim_right [] = refl
trim_left-trim_right (c ∷ s) = elim (Bool-cases (is_space c)) [
  | inl e ↦ rw e (trim_left-trim_right s)
  | inr e ↦ rw e (trim_left-snoc_space c (trim_right s) e)
]

-- Trimming twice is trimming once.
pub trim_space_idem : (s : Text) → trim_space (trim_space s) ≡ trim_space s
unfolding trim_space
trim_space_idem s = rw trim_left-trim_right (trim_right_idem (trim_left s))

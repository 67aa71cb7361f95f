-- ===== src/Tools/Insert.antt =====
-- internal/adapters/tools/insert_tools.go: fsInsertAtLine.
use mathlib.Core.List.{reverse-append}
use underpass_runtime.Base.{
  ℕ, zero, suc, ◌≡◌, refl, sym, ap, ◌∙◌, subst, inl, inr, false, List, [], ◌∷◌, ◌++◌, ltb, length,
  length-append, ◌⊎◌, ◌+◌, ◌-◌, ◌<◌, true, arith, take, drop, take-append-drop, All, ◌==◌, ==_iff,
  Bool-cases, if◌then◌else◌,
}
use underpass_runtime.Text.{Text, has_prefix, has_suffix, trim_suffix, split, push_char, join}
use underpass_runtime.Text.Laws.{split-append, split_cons}

abbrev pub newline : ℕ
newline = 10

unfoldable pub ended : Text → Text
ended content = if has_suffix content (newline ∷ []) then content else content ++ (newline ∷ [])

unfoldable pub insert_lines : Text → List Text
insert_lines content = split newline (trim_suffix (ended content) (newline ∷ []))

-- The handler has refused a negative line.
unfoldable pub insert_at : ℕ → List Text → ℕ
insert_at line lines = if ltb (length lines) line then length lines else line

unfoldable pub fs_insert_at_line : Text → ℕ → Text → Text
fs_insert_at_line original line content =
    let lines = split newline original in
    let at = insert_at line lines in
    join newline (take at lines ++ (insert_lines content ++ drop at lines))

module _ (sep : ℕ) where
  -- A text without the separator, as one that splits into itself.
  abbrev IsPiece : Text → Type 0
  IsPiece w = split sep w ≡ w ∷ []

  pushed :
      (c : ℕ) (ws : List Text) → (c == sep) ≡ false → All IsPiece ws → All IsPiece (push_char c ws)
  unfolding split push_char
  pushed c [] h a = (rw h refl, tt)
  pushed c (w ∷ ws) h (p, a) = (rw (h, p) refl, a)

  split_pieces : (s : Text) → All IsPiece (split sep s)
  unfolding split
  split_pieces [] = (refl, tt)
  split_pieces (c ∷ s) = elim (Bool-cases (c == sep)) [
    | inl e ↦ rw e (refl, split_pieces s)
    | inr e ↦ rw e (pushed c (split sep s) e (split_pieces s))
  ]

  split-join :
      (w : Text) (ws : List Text) → All IsPiece (w ∷ ws) → split sep (join sep (w ∷ ws)) ≡ w ∷ ws
  unfolding join
  split-join w [] (p, a) = p
  split-join w (v ∷ ws) (p, a) =
      split-append sep w (join sep (v ∷ ws)) ∙ rw (p, split-join v ws a) refl

  joined : (c : ℕ) (w : Text) (ws : List Text) → join sep ((c ∷ w) ∷ ws) ≡ c ∷ join sep (w ∷ ws)
  unfolding join
  joined c w [] = refl
  joined c w (v ∷ ws) = refl

  -- A text is its pieces, joined.
  join-split : (s : Text) → join sep (split sep s) ≡ s
  unfolding split join push_char
  join-split [] = refl
  join-split (c ∷ s) =
      let (w, ws, g) = split_cons sep s in
      let rest : join sep (w ∷ ws) ≡ s = ap (join sep) (sym g) ∙ join-split s in
      elim (Bool-cases (c == sep)) [
        | inl e ↦ rw (e, g) (ap (λ t. sep ∷ t) rest ∙ ap (λ d. d ∷ s) (sym ((==_iff c sep).0 e)))
        | inr e ↦ rw (e, g) (joined c w ws ∙ ap (λ t. c ∷ t) rest)
      ]

  pieces_append : (xs ys : List Text) → All IsPiece xs → All IsPiece ys → All IsPiece (xs ++ ys)
  pieces_append [] ys a b = b
  pieces_append (x ∷ xs) ys (p, a) b = (p, pieces_append xs ys a b)

  pieces_take : (n : ℕ) (xs : List Text) → All IsPiece xs → All IsPiece (take n xs)
  pieces_take zero xs a = tt
  pieces_take (suc n) [] a = tt
  pieces_take (suc n) (x ∷ xs) (p, a) = (p, pieces_take n xs a)

  pieces_drop : (n : ℕ) (xs : List Text) → All IsPiece xs → All IsPiece (drop n xs)
  pieces_drop zero xs a = a
  pieces_drop (suc n) [] a = tt
  pieces_drop (suc n) (x ∷ xs) (p, a) = pieces_drop n xs a

  split-join-append :
      (xs : List Text) (y : Text) (ys : List Text)
      → All IsPiece (xs ++ (y ∷ ys))
      → split sep (join sep (xs ++ (y ∷ ys))) ≡ xs ++ (y ∷ ys)
  split-join-append [] y ys a = split-join y ys a
  split-join-append (x ∷ xs) y ys a = split-join x (xs ++ (y ∷ ys)) a

has_suffix-append : (b : Text) → has_suffix (b ++ (newline ∷ [])) (newline ∷ []) ≡ true
unfolding has_suffix has_prefix
has_suffix-append b = rw (reverse-append b (newline ∷ [])) refl

take_append : (b c : Text) → take (length b) (b ++ c) ≡ b
take_append [] c = take_zero c
  where
    take_zero : (c : Text) → take 0 c ≡ []
    take_zero [] = refl
    take_zero (x ∷ c) = refl
take_append (x ∷ b) c = ap (λ t. x ∷ t) (take_append b c)

-- One newline at the end is taken off.
trim_suffix-append : (b : Text) → trim_suffix (b ++ (newline ∷ [])) (newline ∷ []) ≡ b
unfolding trim_suffix
trim_suffix-append b = rw (has_suffix-append b) (
    ap (λ n. take n (b ++ (newline ∷ []))) (shorter (length-append b (newline ∷ [])))
    ∙ take_append b (newline ∷ []))
  where
    shorter : {n : ℕ} → n ≡ length b + 1 → n - 1 ≡ length b
    shorter e = omega arith

-- The content without the newline that it may end in.
abbrev pub HasBody : Text → Text → Type 0
HasBody content body =
    (content ≡ body ++ (newline ∷ []))
    ⊎ ((content ≡ body) × (has_suffix body (newline ∷ []) ≡ false))

insert_lines-HasBody :
    (content body : Text) → HasBody content body → insert_lines content ≡ split newline body
unfolding insert_lines ended
insert_lines-HasBody content body (inl e) =
    rw (e, has_suffix-append body) (ap (split newline) (trim_suffix-append body))
insert_lines-HasBody content body (inr (e, bare)) =
    rw (e, bare) (ap (split newline) (trim_suffix-append body))

below : (a b : ℕ) → ltb a b ≡ true → a < b
below a b h = ground arith

cut : (line : ℕ) (xs : List Text) → length xs < line → (take line xs ≡ xs) × (drop line xs ≡ [])
cut zero xs h = absurd (omega arith)
cut (suc line) [] h = (refl, refl)
cut (suc line) (x ∷ xs) h = let (a, b) = cut line xs (omega arith) in (ap (λ t. x ∷ t) a, b)

whole_cut : (xs : List Text) → (take (length xs) xs ≡ xs) × (drop (length xs) xs ≡ [])
whole_cut [] = (refl, refl)
whole_cut (x ∷ xs) = let (a, b) = whole_cut xs in (ap (λ t. x ∷ t) a, b)

-- A line behind the end stands for the end.
insert_at-cut :
    (line : ℕ) (xs : List Text)
    → (take (insert_at line xs) xs ≡ take line xs) × (drop (insert_at line xs) xs ≡ drop line xs)
unfolding insert_at
insert_at-cut line xs = elim (Bool-cases (ltb (length xs) line)) [
  | inr e ↦ rw e (refl, refl)
  | inl e ↦
      let (a, b) = whole_cut xs in
      let (c, d) = cut line xs (below (length xs) line e) in rw e (a ∙ sym c, b ∙ sym d)
]

-- With the file's lines cut at the given line (behind the last one, where the file has fewer), the
-- lines of the result are those before the cut, the lines of the content without the newline it may
-- end in, and those after the cut; and the file's lines, joined, are the file.
pub split-fs_insert_at_line :
    (original : Text) (line : ℕ) (content body : Text)
    → HasBody content body
    → (split newline (fs_insert_at_line original line content)
        ≡ take line (split newline original)
          ++ (split newline body ++ drop line (split newline original)))
      × (join newline (take line (split newline original) ++ drop line (split newline original))
          ≡ original)
unfolding fs_insert_at_line
split-fs_insert_at_line original line content body shape =
    let lines = split newline original in
    let (w, ws, g) = split_cons newline body in
    let whole = split_pieces newline original in
    (
      rw
          (
            insert_lines-HasBody content body shape,
            (insert_at-cut line lines).0,
            (insert_at-cut line lines).1,
            g,
          )
          (split-join-append newline (take line lines) w (ws ++ drop line lines) (
            pieces_append newline (take line lines) ((w ∷ ws) ++ drop line lines)
              (pieces_take newline line lines whole)
              (pieces_append newline (w ∷ ws) (drop line lines)
                (subst (All (λ u. split newline u ≡ u ∷ [])) g (split_pieces newline body))
                (pieces_drop newline line lines whole)))),
      ap (join newline) (take-append-drop line lines) ∙ join-split newline original,
    )

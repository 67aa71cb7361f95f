-- ===== src/Text/FilePath/Normal.antt =====
-- Cleaning a path twice is the same as cleaning it once.
use underpass_runtime.Base.{
  ℕ, ◌≡◌, ◌≢◌, refl, ap, ◌∙◌, inl, inr, Bool, true, false, List, [], ◌∷◌, All, is_empty, ◌==◌,
  Bool-cases,
}
use mathlib.Core.List.{reverse_aux}
use underpass_runtime.Text.{Text, text_eq, has_prefix, push_char, split, join}
use underpass_runtime.Text.Laws.{split-append}
use underpass_runtime.Text.FilePath.{
  slash, dot, dot_dot, parent_of, clean_step, clean_stack, is_rooted, segments, render, clean,
}

-- One segment: no slash in it.
abbrev pub IsSegment : Text → Type 0
IsSegment w = split slash w ≡ w ∷ []

-- A stack that cleaning leaves: each entry is a segment that is pushed on the ones below it.
abbrev pub IsStack : Bool → List Text → Type 0
IsStack rooted [] = Unit
IsStack rooted (w ∷ stack) =
    IsSegment w × (w ≢ []) × (clean_step rooted stack w ≡ w ∷ stack) × IsStack rooted stack

-- A list of segments.
abbrev pub Segments : List Text → Type 0
Segments ws = All IsSegment ws

push_char-Segments :
    (c : ℕ) (ws : List Text) → (c == slash) ≡ false → Segments ws → Segments (push_char c ws)
unfolding push_char split
push_char-Segments c [] e h = (rw e refl, tt)
push_char-Segments c (w ∷ ws) e (s, h) = (rw (e, s) refl, h)

split-Segments : (s : Text) → Segments (split slash s)
unfolding split
split-Segments [] = (refl, tt)
split-Segments (c ∷ s) = elim (Bool-cases (c == slash)) [
  | inl e ↦ rw e (refl, split-Segments s)
  | inr e ↦ rw e (push_char-Segments c (split slash s) e (split-Segments s))
]

split-join :
    (w : Text) (ws : List Text) → Segments (w ∷ ws) → split slash (join slash (w ∷ ws)) ≡ w ∷ ws
unfolding join
split-join w [] (s, h) = s
split-join w (v ∷ ws) (s, h) =
    split-append slash w (join slash (v ∷ ws)) ∙ rw (s, split-join v ws h) refl

not_empty_ne : (w : Text) → is_empty w ≡ false → w ≢ []
not_empty_ne w h e = let g = rw e at h in cc

parent_of-IsStack :
    (rooted : Bool) (stack : List Text)
    → IsStack rooted stack
    → IsStack rooted (parent_of rooted stack)
unfolding parent_of clean_step split push_char text_eq
parent_of-IsStack true [] h = tt
parent_of-IsStack false [] h = (refl, (λ e. cc), refl, tt)
parent_of-IsStack rooted (top ∷ rest) (s, n, k, h) = elim (Bool-cases (text_eq top dot_dot)) [
  | inl e ↦ rw e (refl, (λ e. cc), rw e refl, (s, n, k, h))
  | inr e ↦ rw e h
]

clean_step-IsStack :
    (rooted : Bool) (stack : List Text) (w : Text)
    → IsSegment w
    → IsStack rooted stack
    → IsStack rooted (clean_step rooted stack w)
unfolding clean_step
clean_step-IsStack rooted stack w s h = elim (Bool-cases (is_empty w)) [
  | inl e ↦ rw e h
  | inr e ↦ elim (Bool-cases (text_eq w dot)) [
    | inl d ↦ rw (e, d) h
    | inr d ↦ elim (Bool-cases (text_eq w dot_dot)) [
      | inl p ↦ rw (e, d, p) (parent_of-IsStack rooted stack h)
      | inr p ↦ rw (e, d, p) (s, not_empty_ne w e, rw (e, d, p) refl, h)
    ]
  ]
]

clean_stack-IsStack :
    (rooted : Bool) (stack ws : List Text)
    → Segments ws
    → IsStack rooted stack
    → IsStack rooted (clean_stack rooted stack ws)
unfolding clean_stack
clean_stack-IsStack rooted stack [] s h = h
clean_stack-IsStack rooted stack (w ∷ ws) (s, ss) h =
    clean_stack-IsStack rooted (clean_step rooted stack w) ws ss
      (clean_step-IsStack rooted stack w s h)

-- Segments that are not empty.
abbrev pub Filled : List Text → Type 0
Filled ws = All (λ w. IsSegment w × (w ≢ [])) ws

Filled-Segments : (ws : List Text) → Filled ws → Segments ws
Filled-Segments [] h = tt
Filled-Segments (w ∷ ws) ((s, n), h) = (s, Filled-Segments ws h)

reverse_aux-Filled :
    (rooted : Bool) (stack ws : List Text)
    → IsStack rooted stack
    → Filled ws
    → Filled (reverse_aux stack ws)
reverse_aux-Filled rooted [] ws h f = f
reverse_aux-Filled rooted (w ∷ stack) ws (s, n, k, h) f =
    reverse_aux-Filled rooted stack (w ∷ ws) h ((s, n), f)

-- The segments of a stack, from the bottom up, build the stack again.
clean_stack-reverse_aux :
    (rooted : Bool) (stack ws : List Text)
    → IsStack rooted stack
    → clean_stack rooted [] (reverse_aux stack ws) ≡ clean_stack rooted stack ws
unfolding clean_stack
clean_stack-reverse_aux rooted [] ws h = refl
clean_stack-reverse_aux rooted (w ∷ stack) ws (s, n, k, h) =
    clean_stack-reverse_aux rooted stack (w ∷ ws) h ∙ ap (λ t. clean_stack rooted t ws) k

first_no_slash : (c : ℕ) (u : Text) → IsSegment (c ∷ u) → (c == slash) ≡ false
unfolding split
first_no_slash c u s = elim (Bool-cases (c == slash)) [
  | inl e ↦ absurd (let g = rw e at s in cc)
  | inr e ↦ e
]

has_prefix-join :
    (w : Text) (ws : List Text)
    → IsSegment w
    → w ≢ []
    → has_prefix (join slash (w ∷ ws)) (slash ∷ []) ≡ false
unfolding join has_prefix
has_prefix-join [] ws s n = absurd (n refl)
has_prefix-join (c ∷ u) [] s n = rw (first_no_slash c u s) refl
has_prefix-join (c ∷ u) (v ∷ ws) s n = rw (first_no_slash c u s) refl

is_rooted-render :
    (rooted : Bool) (ws : List Text) → Filled ws → is_rooted (render rooted ws) ≡ rooted
unfolding is_rooted render has_prefix
is_rooted-render true ws h = refl
is_rooted-render false [] h = refl
is_rooted-render false (w ∷ ws) ((s, n), h) = has_prefix-join w ws s n

clean_stack-render :
    (rooted : Bool) (ws : List Text)
    → Filled ws
    → clean_stack rooted [] (split slash (render rooted ws)) ≡ clean_stack rooted [] ws
unfolding render
clean_stack-render true [] h = unfold join split clean_stack clean_step in refl
clean_stack-render true (w ∷ ws) h =
    unfold clean_stack clean_step split in
    ap (λ t. clean_stack true [] t) (split-join w ws (Filled-Segments (w ∷ ws) h))
clean_stack-render false [] h = unfold split push_char clean_stack clean_step text_eq in refl
clean_stack-render false (w ∷ ws) h =
    ap (clean_stack false []) (split-join w ws (Filled-Segments (w ∷ ws) h))

segments-IsStack : (s : Text) → IsStack (is_rooted s) (clean_stack (is_rooted s) [] (split slash s))
segments-IsStack s = clean_stack-IsStack (is_rooted s) [] (split slash s) (split-Segments s) tt

segments-Filled : (s : Text) → Filled (segments s)
unfolding segments
segments-Filled s = reverse_aux-Filled (is_rooted s) _ [] (segments-IsStack s) tt

-- A clean path has the segments of the path that it comes from.
pub segments-clean : (s : Text) → segments (clean s) ≡ segments s
unfolding clean clean_stack
segments-clean s = same (is_rooted-render (is_rooted s) (segments s) (segments-Filled s))
  where
    stack :
        clean_stack (is_rooted s) [] (split slash (render (is_rooted s) (segments s)))
        ≡ clean_stack (is_rooted s) [] (split slash s)
    stack =
        clean_stack-render (is_rooted s) (segments s) (segments-Filled s)
        ∙ (unfold segments in
            clean_stack-reverse_aux (is_rooted s) (clean_stack (is_rooted s) [] (split slash s)) []
              (segments-IsStack s))

    same :
        is_rooted (render (is_rooted s) (segments s)) ≡ is_rooted s
        → segments (render (is_rooted s) (segments s)) ≡ segments s
    same e =
        unfold segments in
        ap
          (λ r. reverse_aux (clean_stack r [] (split slash (render (is_rooted s) (segments s)))) [])
          e
        ∙ ap (λ t. reverse_aux t []) stack

is_rooted-clean : (s : Text) → is_rooted (clean s) ≡ is_rooted s
unfolding clean
is_rooted-clean s = is_rooted-render (is_rooted s) (segments s) (segments-Filled s)

-- Cleaning a path twice is the same as cleaning it once.
pub clean_idem : (s : Text) → clean (clean s) ≡ clean s
unfolding clean
clean_idem s =
    ap (λ r. render r (segments (clean s))) (is_rooted-clean s)
    ∙ ap (render (is_rooted s)) (segments-clean s)

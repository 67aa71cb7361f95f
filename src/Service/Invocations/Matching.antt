-- ===== src/Service/Invocations/Matching.antt =====
-- Which invocations belong to a session, a tool and a correlation id, said without a key.
use underpass_runtime.Base.{
  ◌≡◌, ◌≢◌, refl, sym, ap, ◌∙◌, inl, inr, Bool, true, false, ◌&&◌, ◌||◌, Option, none, some, List,
  [], ◌∷◌, ◌++◌, is_empty, All, Bool-cases, &&-eq-true, if◌then◌else◌,
}
use underpass_runtime.Text.{Text, text_eq, trim_space}
use underpass_runtime.Text.Laws.{eq_of_text_eq, text_eq_refl, text_eq_of_eq}
use underpass_runtime.Text.Parts.{LacksSeparator, parts_inj}
use underpass_runtime.Domain.{Invocation}
use underpass_runtime.Service.Invocations.{
  empty_store, join_key, correlation_lookup_key, key_of, find_by_correlation,
}
use underpass_runtime.Service.Invocations.Index.{
  save_all, first_id, last_with, latest_of_first, find_by_key-save_all,
}

-- The invocation is of the session and the tool, and has the correlation id, all trimmed.
abbrev pub belongs : Text → Text → Text → Invocation → Bool
belongs session_id tool_name correlation_id inv =
    text_eq (trim_space inv.session_id) (trim_space session_id)
    && (text_eq (trim_space inv.tool_name) (trim_space tool_name)
        && text_eq (trim_space inv.correlation_id) (trim_space correlation_id))

-- The id of the first invocation of the series that belongs there.
abbrev pub first_belonging : Text → Text → Text → List Invocation → Option Text
first_belonging s t c [] = none
first_belonging s t c (inv ∷ invs) =
    if belongs s t c inv then some inv.id else first_belonging s t c invs

-- The last record of the invocation that was the first to belong there.
abbrev pub latest_belonging : Text → Text → Text → List Invocation → Option Invocation
latest_belonging s t c invs = elim (first_belonging s t c invs) [
  | none ↦ none
  | some id ↦ last_with id invs
]

-- A session id and a tool name, trimmed, without the separator of the key.
abbrev pub AreUnbarred : Text → Text → Type 0
AreUnbarred session_id tool_name =
    LacksSeparator b'|' (trim_space session_id) × LacksSeparator b'|' (trim_space tool_name)

pub eq_of_iff : (a b : Bool) → (a ≡ true → b ≡ true) → (b ≡ true → a ≡ true) → a ≡ b
eq_of_iff true b f g = sym (f refl)
eq_of_iff false true f g = g refl
eq_of_iff false false f g = refl

append_filled : (a b : Text) → is_empty a ≡ false → is_empty (a ++ b) ≡ false
append_filled [] b h = absurd (cc)
append_filled (c ∷ a) b h = refl

module _ (x y z x' y' z' : Text) where
  key_parts :
      is_empty x ≡ false
      → is_empty y ≡ false
      → is_empty z ≡ false
      → LacksSeparator b'|' x × LacksSeparator b'|' y
      → LacksSeparator b'|' x' × LacksSeparator b'|' y'
      → join_key x' y' z' ≡ join_key x y z
      → (x' ≡ x) × (y' ≡ y) × (z' ≡ z)
  unfolding join_key
  key_parts ex ey ez (hx, hy) (hx', hy') e =
      elim (Bool-cases (is_empty x' || is_empty y' || is_empty z')) [
        | inl blank ↦ absurd (filled (rw (blank, ex, ey, ez) at e))
        | inr named ↦ parts_inj b'|' x' x y' y z' z hx' hx hy' hy (rw (named, ex, ey, ez) at e)
      ]
    where
      filled : [] ≡ x ++ (b'|' ∷ (y ++ (b'|' ∷ z))) → ⊥
      filled g =
          let k = append_filled x (b'|' ∷ (y ++ (b'|' ∷ z))) ex in let l = ap is_empty g ∙ k in cc

  text_eq-join_key :
      is_empty x ≡ false
      → is_empty y ≡ false
      → is_empty z ≡ false
      → LacksSeparator b'|' x × LacksSeparator b'|' y
      → LacksSeparator b'|' x' × LacksSeparator b'|' y'
      → text_eq (join_key x' y' z') (join_key x y z)
        ≡ (text_eq x' x && (text_eq y' y && text_eq z' z))
  text_eq-join_key ex ey ez h h' = eq_of_iff _ _ to from
    where
      to :
          text_eq (join_key x' y' z') (join_key x y z) ≡ true
          → (text_eq x' x && (text_eq y' y && text_eq z' z)) ≡ true
      to e =
          let (a, b, c) = key_parts ex ey ez h h' (eq_of_text_eq _ _ e) in
          rw (text_eq_of_eq x' x a, text_eq_of_eq y' y b, text_eq_of_eq z' z c) refl

      from :
          (text_eq x' x && (text_eq y' y && text_eq z' z)) ≡ true
          → text_eq (join_key x' y' z') (join_key x y z) ≡ true
      from e =
          let (a, r) = &&-eq-true _ _ e in
          let (b, c) = &&-eq-true _ _ r in
          rw (eq_of_text_eq x' x a, eq_of_text_eq y' y b, eq_of_text_eq z' z c)
            (text_eq_refl (join_key x y z))

-- The first record under a key is the first that belongs to what the key is for.
pub first_id-belongs :
    (session_id tool_name correlation_id : Text) (invs : List Invocation)
    → is_empty (trim_space session_id) ≡ false
    → is_empty (trim_space tool_name) ≡ false
    → is_empty (trim_space correlation_id) ≡ false
    → AreUnbarred session_id tool_name
    → All (λ (inv : Invocation). AreUnbarred inv.session_id inv.tool_name) invs
    → first_id (correlation_lookup_key session_id tool_name correlation_id) invs
      ≡ first_belonging session_id tool_name correlation_id invs
unfolding first_id key_of correlation_lookup_key
first_id-belongs s t c [] es et ec h hs = refl
first_id-belongs s t c (inv ∷ invs) es et ec h (h', hs) =
    rw
      (
        text_eq-join_key (trim_space s) (trim_space t) (trim_space c) (trim_space inv.session_id)
            (trim_space inv.tool_name) (trim_space inv.correlation_id) es et ec h h',
        first_id-belongs s t c invs es et ec h hs,
      )
      refl

-- After any series of saves into a new store, a search by session, tool and correlation id, none of
-- them blank, finds the last state of the invocation that was the first to be saved for this
-- session, tool and correlation id (all compared trimmed), and nothing if none was; where neither
-- the ids of the sessions nor the names of the tools, saved or searched, contain the character "|".
pub find-save_all :
    (invs : List Invocation) (session_id tool_name correlation_id : Text)
    → is_empty (trim_space session_id) ≡ false
    → is_empty (trim_space tool_name) ≡ false
    → is_empty (trim_space correlation_id) ≡ false
    → AreUnbarred session_id tool_name
    → All (λ (inv : Invocation). AreUnbarred inv.session_id inv.tool_name) invs
    → find_by_correlation (save_all empty_store invs) session_id tool_name correlation_id
      ≡ latest_belonging session_id tool_name correlation_id invs
unfolding find_by_correlation
find-save_all invs s t c es et ec h hs =
    find_by_key-save_all invs (correlation_lookup_key s t c) key_filled
    ∙ (unfold latest_of_first in
        ap (λ (o : Option Text). elim o [ none ↦ none | some id ↦ last_with id invs ])
          (first_id-belongs s t c invs es et ec h hs))
  where
    key_filled : correlation_lookup_key s t c ≢ []
    key_filled e =
        unfold correlation_lookup_key join_key in
        let g = append_filled (trim_space s) (b'|' ∷ (trim_space t ++ (b'|' ∷ trim_space c))) es in
        let k : trim_space s ++ (b'|' ∷ (trim_space t ++ (b'|' ∷ trim_space c))) ≡ [] =
          rw (correlation_lookup_key, join_key, es, et, ec) at e in
        let l = ap is_empty k in cc

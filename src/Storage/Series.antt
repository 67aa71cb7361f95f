-- ===== src/Storage/Series.antt =====
-- internal/adapters/invocationstore/valkey_store.go: a series of saves, by any number of invocations.
use underpass_runtime.Base.{
  ◌≡◌, refl, sym, ap, ◌∙◌, subst, inl, inr, true, false, ◌||◌, Option, none, some, List, [], ◌∷◌,
  ◌++◌, is_empty, All, Bool-cases, &&-eq-true, if◌then◌else◌,
}
use underpass_runtime.Text.{Text, codes, text_eq, trim_space}
use underpass_runtime.Text.Laws.{text_eq_flip, eq_of_text_eq, text_eq_of_eq}
use underpass_runtime.Text.Parts.{LacksSeparator, append_cancel, parts_inj}
use underpass_runtime.Domain.{Invocation}
use underpass_runtime.Service.Ports.{answered}
use underpass_runtime.Service.Sources.{bind_answered}
use underpass_runtime.Service.Invocations.Index.{
  or_else, last_with, or_else_assoc, or_else-if, or_else-none,
}
use underpass_runtime.Service.Invocations.Matching.{belongs, first_belonging, latest_belonging}
use underpass_runtime.Storage.Records.{
  Backend, ValkeyStore, key, failing, corr_key, correlation_key, save, load_indexed, find_by_key,
  find_by_correlation,
}
use underpass_runtime.Storage.Loads.{shown, save_all, load-save_all, load_absent}
use underpass_runtime.Storage.Reload.{
  IsWorking, IsWritten, IsPlainId, save-IsWritten, keys_apart, find_indexed, answered_inj,
}

-- url.QueryEscape: its results have no colon, and different texts have different results.
pub record IsEscaping (escape : Text → Text) : Type 0 where
  pub lacks_colon : (t : Text) → LacksSeparator b':' (escape t)
  pub injective : (t u : Text) → escape t ≡ escape u → t ≡ u

module _ {V : Type 0} (b : Backend V) (s : ValkeyStore) where
  module _ (works : IsWorking b) (escaping : IsEscaping b.query_escape) (x y z : Text)
      (ex : is_empty (trim_space x) ≡ false) (ey : is_empty (trim_space y) ≡ false)
      (ez : is_empty (trim_space z) ≡ false) where
    corr_filled : (t : Text) → is_empty (s.key_prefix ++ (codes ":corr:" ++ t)) ≡ false
    corr_filled t = of s.key_prefix
      where
        of : (u : Text) → is_empty (u ++ (codes ":corr:" ++ t)) ≡ false
        of [] = refl
        of (c ∷ u) = refl

    key_filled : is_empty (correlation_key b s x y z) ≡ false
    unfolding correlation_key corr_key
    key_filled = rw (ex, ey, ez) (corr_filled _)

    tail_inj : (t u : Text) → codes ":corr:" ++ t ≡ codes ":corr:" ++ u → t ≡ u
    tail_inj t u h = append_cancel (codes ":corr:") t u h

    same_parts :
        (x' y' z' : Text)
        → is_empty (correlation_key b s x' y' z') ≡ false
        → correlation_key b s x' y' z' ≡ correlation_key b s x y z
        → (trim_space x' ≡ trim_space x)
          × (trim_space y' ≡ trim_space y)
          × (trim_space z' ≡ trim_space z)
    unfolding correlation_key corr_key
    same_parts x' y' z' filled e =
        elim (Bool-cases
          (is_empty (trim_space x') || is_empty (trim_space y') || is_empty (trim_space z'))) [
            | inl blank ↦ absurd (let g = rw blank at filled in cc)
            | inr named ↦
                let rest =
                  tail_inj _ _ (append_cancel s.key_prefix _ _ (rw (named, ex, ey, ez) at e)) in
                let (i, j, k) =
                  parts_inj b':' _ _ _ _ _ _ (escaping.lacks_colon (trim_space x'))
                    (escaping.lacks_colon (trim_space x)) (escaping.lacks_colon (trim_space y'))
                    (escaping.lacks_colon (trim_space y)) rest in
                (escaping.injective _ _ i, escaping.injective _ _ j, escaping.injective _ _ k)
          ]

    abbrev own_key : Invocation → Text
    own_key inv = correlation_key b s inv.session_id inv.tool_name inv.correlation_id

    -- An invocation belongs to the search if it has its key.
    belongs_of_key :
        (inv : Invocation)
        → is_empty (own_key inv) ≡ false
        → own_key inv ≡ correlation_key b s x y z
        → belongs x y z inv ≡ true
    belongs_of_key inv filled e =
        let (i, j, k) = same_parts inv.session_id inv.tool_name inv.correlation_id filled e in
        rw (text_eq_of_eq _ _ i, text_eq_of_eq _ _ j, text_eq_of_eq _ _ k) refl

    key_of_belongs :
        (inv : Invocation) → belongs x y z inv ≡ true → own_key inv ≡ correlation_key b s x y z
    unfolding correlation_key
    key_of_belongs inv h =
        let (i, r) = &&-eq-true _ _ h in
        let (j, k) = &&-eq-true _ _ r in
        rw (eq_of_text_eq _ _ i, eq_of_text_eq _ _ j, eq_of_text_eq _ _ k) refl

    apart_key : (id : Text) → IsPlainId id → text_eq (correlation_key b s x y z) (key s id) ≡ false
    unfolding correlation_key
    apart_key id plain = keys_apart b s _ _ _ id plain key_filled

    -- What the key of the search has after one save.
    index-save :
        (v v' : V) (inv : Invocation) (held : Option Text)
        → IsPlainId inv.id
        → b.get v (correlation_key b s x y z) ≡ answered held
        → save b s v inv ≡ answered v'
        → b.get v' (correlation_key b s x y z)
          ≡ answered (or_else held (if belongs x y z inv then some inv.id else none))
    unfolding or_else
    index-save v v' inv held plain g h =
        let w = save-IsWritten b s v v' inv works plain h in
        elim (Bool-cases (belongs x y z inv)) [
          | inl mine ↦ rw mine (own w (key_of_belongs inv mine) held g)
          | inr other ↦ rw other (
              w.untouched (correlation_key b s x y z) (text_eq_flip _ _ (apart_key inv.id plain))
                (λ filled. differs other filled)
              ∙ g
              ∙ ap (λ o. answered o) (or_else-none held))
        ]
      where
        differs :
            belongs x y z inv ≡ false
            → is_empty (own_key inv) ≡ false
            → text_eq (own_key inv) (correlation_key b s x y z) ≡ false
        differs other filled =
            elim (Bool-cases (text_eq (own_key inv) (correlation_key b s x y z))) [
              | inr e ↦ e
              | inl e ↦ absurd (cc (belongs_of_key inv filled (eq_of_text_eq _ _ e), other))
            ]

        own :
            IsWritten b s v v' inv (own_key inv)
            → own_key inv ≡ correlation_key b s x y z
            → (o : Option Text) → b.get v (correlation_key b s x y z) ≡ answered o
            → b.get v' (correlation_key b s x y z) ≡ answered (or_else o (some inv.id))
        own w e none g =
            unfold or_else in
            subst (λ k. b.get v' k ≡ answered (some inv.id)) e
              (w.indexes (ap is_empty e ∙ key_filled) (ap (b.get v) e ∙ g))
        own w e (some t) g =
            unfold or_else in
            subst (λ k. b.get v' k ≡ answered (some t)) e
              (w.keeps t (ap is_empty e ∙ key_filled) (ap (b.get v) e ∙ g))

    index-save_all :
        (v v' : V) (invs : List Invocation) (held : Option Text)
        → All (λ (inv : Invocation). IsPlainId inv.id) invs
        → b.get v (correlation_key b s x y z) ≡ answered held
        → save_all b s v invs ≡ answered v'
        → b.get v' (correlation_key b s x y z)
          ≡ answered (or_else held (first_belonging x y z invs))
    unfolding save_all
    index-save_all v v' [] held plain g h =
        ap (λ u. b.get u (correlation_key b s x y z)) (sym (answered_inj h))
        ∙ g
        ∙ ap (λ o. answered o) (or_else-none held)
    index-save_all v v' (inv ∷ invs) held (plain, plains) g h =
        let (v1, saves, rest) = bind_answered (save b s v inv) (λ u. save_all b s u invs) h in
        index-save_all v1 v' invs _ plains (index-save v v1 inv held plain g saves) rest
        ∙ ap (λ o. answered o)
            (sym (or_else_assoc held _ _)
              ∙ ap (or_else held)
                  (sym (or_else-if (belongs x y z inv) inv.id (first_belonging x y z invs))))

    first_belonging-IsPlainId :
        (invs : List Invocation) (id : Text)
        → All (λ (inv : Invocation). IsPlainId inv.id) invs
        → first_belonging x y z invs ≡ some id
        → IsPlainId id
    first_belonging-IsPlainId [] id plain h = absurd (cc)
    first_belonging-IsPlainId (inv ∷ invs) id (plain, plains) h =
        elim (Bool-cases (belongs x y z inv)) [
          | inl e ↦ subst IsPlainId (some_inj (rw e at h)) plain
          | inr e ↦ first_belonging-IsPlainId invs id plains (rw e at h)
        ]
      where
        some_inj : {a c : Text} → some a ≡ some c → a ≡ c
        some_inj e = cc

    find_absent :
        (v : V)
        → b.get v (correlation_key b s x y z) ≡ answered none
        → find_by_correlation b s v x y z ≡ answered none
    unfolding find_by_correlation find_by_key load_indexed failing
    find_absent v g = rw (key_filled, g) refl

    find_first :
        (v v' : V) (invs : List Invocation) (o : Option Text)
        → All (λ (inv : Invocation). IsPlainId inv.id) invs
        → ((k : Text) → b.get v k ≡ answered none)
        → save_all b s v invs ≡ answered v'
        → first_belonging x y z invs ≡ o
        → b.get v' (correlation_key b s x y z) ≡ answered o
        → find_by_correlation b s v' x y z
          ≡ answered (shown (elim o [ none ↦ none | some id ↦ last_with id invs ]))
    find_first v v' invs none plain empty h e g = find_absent v' g
    find_first v v' invs (some id) plain empty h e g = find_indexed b s v' x y z id _ key_filled g (
        load-save_all b s works v v' invs id none plain (first_belonging-IsPlainId invs id plain e)
          (load_absent b s works v id empty) h
        ∙ ap (λ o. answered (shown o)) (sym (or_else-none (last_with id invs))))

    -- When a series of saves into an empty store succeeds, a search by session, tool and correlation
    -- id, none of them blank, finds the last state of the invocation that was the first to be saved
    -- for this session, tool and correlation id (all compared trimmed), less its output and logs, and
    -- nothing if none was: a later invocation for the same three does not take its place. The client, the
    -- codec and url.QueryEscape work as IsWorking and IsEscaping say, and no id of an invocation begins
    -- with "corr:".
    pub find_by_correlation-save_all :
        (v v' : V) (invs : List Invocation)
        → All (λ (inv : Invocation). IsPlainId inv.id) invs
        → ((k : Text) → b.get v k ≡ answered none)
        → save_all b s v invs ≡ answered v'
        → find_by_correlation b s v' x y z ≡ answered (shown (latest_belonging x y z invs))
    find_by_correlation-save_all v v' invs plain empty h =
        find_first v v' invs (first_belonging x y z invs) plain empty h refl (
          index-save_all v v' invs none plain (empty (correlation_key b s x y z)) h
          ∙ (unfold or_else in refl))

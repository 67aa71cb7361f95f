-- ===== src/Storage/Loads.antt =====
-- internal/adapters/invocationstore/valkey_store.go: what a series of saves loads.
use underpass_runtime.Base.{
  ◌≡◌, refl, sym, ap, ◌∙◌, inl, inr, false, Option, none, some, List, [], ◌∷◌, is_empty, All,
  Bool-cases, if◌then◌else◌,
}
use underpass_runtime.Text.{Text, text_eq}
use underpass_runtime.Text.Laws.{eq_of_text_eq, text_eq_of_eq}
use underpass_runtime.Text.Parts.{append_cancel}
use underpass_runtime.Domain.{Invocation}
use underpass_runtime.Service.Invoke.{◌>>=◌}
use underpass_runtime.Service.Ports.{Answer, answered}
use underpass_runtime.Service.Sources.{bind_answered}
use underpass_runtime.Service.Invocations.Index.{or_else, last_with, or_else_assoc}
use underpass_runtime.Storage.Records.{
  Backend, ValkeyStore, key, failing, correlation_key, save, read_envelope, load,
}
use underpass_runtime.Storage.Reload.{
  IsWorking, IsPlainId, without_details, save-IsWritten, keys_apart, answered_inj,
}

abbrev pub shown : Option Invocation → Option Invocation
shown none = none
shown (some inv) = some (without_details inv)

module _ {V : Type 0} (b : Backend V) (s : ValkeyStore) where
  -- The saves of a series, while they succeed.
  unfoldable pub save_all : V → List Invocation → Answer V
  save_all v [] = answered v
  save_all v (inv ∷ invs) = save b s v inv >>= (λ v'. save_all v' invs)

module _ {V : Type 0} (b : Backend V) (s : ValkeyStore) (works : IsWorking b) where
  load-save :
      (v v' : V) (inv : Invocation) (id : Text) (r : Option Invocation)
      → IsPlainId inv.id
      → IsPlainId id
      → load b s v id ≡ answered (shown r)
      → save b s v inv ≡ answered v'
      → load b s v' id ≡ answered (shown (or_else (if text_eq inv.id id then some inv else none) r))
  unfolding or_else
  load-save v v' inv id r plain plain' l h =
      let w = save-IsWritten b s v v' inv works plain h in
      elim (Bool-cases (text_eq inv.id id)) [
        | inl same ↦ rw same (ap (load b s v') (sym (eq_of_text_eq inv.id id same)) ∙ w.loads)
        | inr other ↦ rw other (
            loads_as (w.untouched (key s id) (keys_differ other) (λ filled. index_apart filled))
            ∙ l)
      ]
    where
      loads_as : b.get v' (key s id) ≡ b.get v (key s id) → load b s v' id ≡ load b s v id
      loads_as e = unfold load in ap (λ m. failing "get invocation" m >>= read_envelope b s) e

      behind_colon : b':' ∷ inv.id ≡ b':' ∷ id → inv.id ≡ id
      behind_colon e = cc

      cancelled : key s inv.id ≡ key s id → b':' ∷ inv.id ≡ b':' ∷ id
      cancelled e = unfold key in append_cancel s.key_prefix _ _ e

      keys_differ : text_eq inv.id id ≡ false → text_eq (key s inv.id) (key s id) ≡ false
      keys_differ other = elim (Bool-cases (text_eq (key s inv.id) (key s id))) [
        | inr e ↦ e
        | inl e ↦
            let k = eq_of_text_eq _ _ e in
            let t = text_eq_of_eq inv.id id (behind_colon (cancelled k)) in absurd (cc)
      ]

      index_apart :
          is_empty (correlation_key b s inv.session_id inv.tool_name inv.correlation_id) ≡ false
          → text_eq (correlation_key b s inv.session_id inv.tool_name inv.correlation_id) (key s id)
            ≡ false
      index_apart filled = unfold correlation_key in keys_apart b s _ _ _ id plain' filled

  pub load-save_all :
      (v v' : V) (invs : List Invocation) (id : Text) (r : Option Invocation)
      → All (λ (inv : Invocation). IsPlainId inv.id) invs
      → IsPlainId id
      → load b s v id ≡ answered (shown r)
      → save_all b s v invs ≡ answered v'
      → load b s v' id ≡ answered (shown (or_else (last_with id invs) r))
  unfolding save_all last_with
  load-save_all v v' [] id r plain plain' l h =
      ap (λ u. load b s u id) (sym (answered_inj h)) ∙ l ∙ (unfold or_else in refl)
  load-save_all v v' (inv ∷ invs) id r (plain, plains) plain' l h =
      let (v1, saves, rest) = bind_answered (save b s v inv) (λ u. save_all b s u invs) h in
      load-save_all v1 v' invs id _ plains plain' (load-save v v1 inv id r plain plain' l saves)
        rest
      ∙ ap (λ o. answered (shown o)) (or_else_assoc (last_with id invs) _ r)

  pub load_absent :
      (v : V) (id : Text) → ((k : Text) → b.get v k ≡ answered none) → load b s v id ≡ answered none
  unfolding load failing read_envelope
  load_absent v id empty = rw (empty (key s id)) refl

-- ===== src/Storage/Reload.antt =====
-- internal/adapters/invocationstore/valkey_store.go: what is saved is loaded, and found by its
-- correlation.
use underpass_runtime.Base.{
  ℕ, ◌≡◌, refl, sym, ap, ◌∙◌, subst, inl, inr, false, ◌||◌, Option, none, some, [], ◌∷◌, ◌++◌,
  is_empty, Bool-cases, Option-cases, String,
}
use underpass_runtime.Text.{Text, codes, text_eq, has_prefix}
use underpass_runtime.Text.Laws.{text_eq_flip, eq_of_text_eq, has_prefix-append}
use underpass_runtime.Domain.{Invocation}
use underpass_runtime.Service.Invoke.{◌>>=◌}
use underpass_runtime.Service.Ports.{Answer, answered, failed_with}
use underpass_runtime.Service.Sources.{bind_answered}
use underpass_runtime.Text.Parts.{append_cancel}
use underpass_runtime.Storage.Records.{
  InvocationEnvelope, to_envelope, from_envelope, Backend, ValkeyStore, key, failing, corr_key,
  correlation_key, index_invocation, write_envelope, save, read_envelope, load, load_indexed,
  find_by_key, find_by_correlation,
}

-- What the store relies on: a key that is set is read, one that is set if it does not exist is read
-- if it did not, others stay, and the decoder reads what the encoder wrote. (Keys that expire are
-- left aside.)
pub record IsWorking {V : Type 0} (b : Backend V) : Type 0 where
  pub get_set :
      (v v' : V) (k t : Text) (ttl : ℕ)
      → b.set v k t ttl ≡ answered v'
      → (b.get v' k ≡ answered (some t))
        × ((j : Text) → text_eq k j ≡ false → b.get v' j ≡ b.get v j)
  pub get_set_nx :
      (v v' : V) (k t : Text) (ttl : ℕ)
      → b.set_nx v k t ttl ≡ answered v'
      → (b.get v k ≡ answered none → b.get v' k ≡ answered (some t))
        × ((x : Text) → b.get v k ≡ answered (some x) → b.get v' k ≡ answered (some x))
        × ((j : Text) → text_eq k j ≡ false → b.get v' j ≡ b.get v j)
  pub decode_encode :
      (env : InvocationEnvelope) (written : Text)
      → b.encode env ≡ some written
      → b.decode written ≡ some env

-- What is kept of an invocation.
abbrev pub without_details : Invocation → Invocation
without_details inv = record inv { output = none; logs = [] }

abbrev pub IsPlainId : Text → Type 0
IsPlainId id = has_prefix id (codes "corr:") ≡ false

pub answered_inj : {A : Type 0} {a b : A} → answered a ≡ answered b → a ≡ b
answered_inj h = cc

tail_inj : {x y : ℕ} {a b : Text} → x ∷ a ≡ y ∷ b → a ≡ b
tail_inj h = cc

starts_otherwise : (tail : Text) → IsPlainId (codes "corr:" ++ tail) → ⊥
starts_otherwise tail h = cc (has_prefix-append (codes "corr:") tail)

failing_answered :
    {A : Type 0} (context : String) (m : Answer A) (a : A)
    → failing context m ≡ answered a
    → m ≡ answered a
unfolding failing
failing_answered context (answered x) a h = h
failing_answered context (failed_with message) a h = absurd (cc)

failing_of :
    {A : Type 0} (context : String) (m : Answer A) (a : A)
    → m ≡ answered a
    → failing context m ≡ answered a
unfolding failing
failing_of context (answered x) a h = h
failing_of context (failed_with message) a h = absurd (cc)

module _ {V : Type 0} (b : Backend V) (s : ValkeyStore) where
  -- The key of an invocation is none of the index, unless its id begins like one.
  pub keys_apart :
      (x y z id : Text)
      → IsPlainId id
      → is_empty (corr_key b s x y z) ≡ false
      → text_eq (corr_key b s x y z) (key s id) ≡ false
  unfolding corr_key key
  keys_apart x y z id unlike filled = elim (Bool-cases (is_empty x || is_empty y || is_empty z)) [
    | inl blank ↦ absurd (let g = rw blank at filled in cc)
    | inr named ↦ elim (Bool-cases (text_eq (corr_key b s x y z) (key s id))) [
      | inr other ↦ other
      | inl same ↦
          let e = eq_of_text_eq _ _ same in
          let f = rw named at e in
          let rest = append_cancel s.key_prefix _ _ f in
          let tail = b.query_escape x ++ (b':' ∷ (b.query_escape y ++ (b':' ∷ b.query_escape z))) in
          let begins : id ≡ codes "corr:" ++ tail = sym (tail_inj rest) in
          absurd (starts_otherwise tail (subst IsPlainId begins unlike))
    ]
  ]

  read_decoded :
      (env : InvocationEnvelope) (written : Text)
      → b.decode written ≡ some env
      → read_envelope b s (some written) ≡ answered (some (from_envelope env))
  unfolding read_envelope
  read_decoded env written e = rw (read_envelope, e) refl

  -- Only the output and the logs are lost on the way through the envelope.
  from_envelope-to_envelope :
      (inv : Invocation) → from_envelope (to_envelope inv) ≡ without_details inv
  unfolding from_envelope to_envelope
  from_envelope-to_envelope inv = refl

  written_loads :
      (v : V) (inv : Invocation) (written : Text)
      → IsWorking b
      → b.encode (to_envelope inv) ≡ some written
      → b.get v (key s inv.id) ≡ answered (some written)
      → load b s v inv.id ≡ answered (some (without_details inv))
  unfolding load
  written_loads v inv written works e g =
      ap (λ m. m >>= read_envelope b s) (failing_of "get invocation" _ _ g)
      ∙ read_decoded (to_envelope inv) written (works.decode_encode (to_envelope inv) written e)
      ∙ ap (λ i. answered (some i)) (from_envelope-to_envelope inv)

  -- What a save that succeeds has done: the record loads, and the index key has the id that it had,
  -- or else the record's.
  pub record IsWritten (v v' : V) (inv : Invocation) (index_key : Text) : Type 0 where
    pub loads : load b s v' inv.id ≡ answered (some (without_details inv))
    pub indexes :
        is_empty index_key ≡ false
        → b.get v index_key ≡ answered none
        → b.get v' index_key ≡ answered (some inv.id)
    pub keeps :
        (id : Text)
        → is_empty index_key ≡ false
        → b.get v index_key ≡ answered (some id)
        → b.get v' index_key ≡ answered (some id)
    pub untouched :
        (j : Text)
        → text_eq (key s inv.id) j ≡ false
        → (is_empty index_key ≡ false → text_eq index_key j ≡ false)
        → b.get v' j ≡ b.get v j

  indexed :
      (v v1 v' : V) (inv : Invocation) (written index_key : Text)
      → IsWorking b
      → (is_empty index_key ≡ false → text_eq index_key (key s inv.id) ≡ false)
      → b.encode (to_envelope inv) ≡ some written
      → b.set v (key s inv.id) written s.ttl ≡ answered v1
      → index_invocation b s v1 index_key inv.id ≡ answered v'
      → IsWritten v v' inv index_key
  unfolding index_invocation
  indexed v v1 v' inv written index_key works differ e sets h =
      let (own, others) = works.get_set v v1 (key s inv.id) written s.ttl sets in
      elim (Bool-cases (is_empty index_key)) [
        | inl blank ↦
            let same : v1 ≡ v' = answered_inj (rw blank at h) in
            record {
              loads =
                  subst (λ u. load b s u inv.id ≡ answered (some (without_details inv))) same
                    (written_loads v1 inv written works e own);
              indexes = λ filled. absurd (cc);
              keeps = λ id filled. absurd (cc);
              untouched = λ j n m. ap (λ u. b.get u j) (sym same) ∙ others j n;
            }
        | inr filled ↦
            let index_set =
              failing_answered "set invocation correlation index" _ v' (rw filled at h) in
            let (fresh, kept, apart) = works.get_set_nx v1 v' index_key inv.id s.ttl index_set in
            let before = others index_key (text_eq_flip _ _ (differ filled)) in
            record {
              loads =
                  written_loads v' inv written works e (apart (key s inv.id) (differ filled) ∙ own);
              indexes = λ f g. fresh (before ∙ g);
              keeps = λ id f g. kept id (before ∙ g);
              untouched = λ j n m. apart j (m filled) ∙ others j n;
            }
      ]

  pub save-IsWritten :
      (v v' : V) (inv : Invocation)
      → IsWorking b
      → IsPlainId inv.id
      → save b s v inv ≡ answered v'
      → IsWritten v v' inv (correlation_key b s inv.session_id inv.tool_name inv.correlation_id)
  unfolding save write_envelope correlation_key
  save-IsWritten v v' inv works unlike h = elim (Option-cases (b.encode (to_envelope inv))) [
    | inl lacks ↦ absurd (let g = rw lacks at h in cc)
    | inr (written, e) ↦
        let (v1, sets, indexes) =
          bind_answered (failing "set invocation" (b.set v (key s inv.id) written s.ttl))
            (λ u.
              index_invocation b s u
                (correlation_key b s inv.session_id inv.tool_name inv.correlation_id) inv.id)
            (rw e at h) in
        indexed v v1 v' inv written _ works (keys_apart _ _ _ inv.id unlike) e
          (failing_answered "set invocation" _ v1 sets) indexes
  ]

  -- A search under the index key loads the record whose id the key has.
  pub find_indexed :
      (v : V) (x y z id : Text) (r : Answer (Option Invocation))
      → is_empty (correlation_key b s x y z) ≡ false
      → b.get v (correlation_key b s x y z) ≡ answered (some id)
      → load b s v id ≡ r
      → find_by_correlation b s v x y z ≡ r
  unfolding find_by_correlation find_by_key load_indexed
  find_indexed v x y z id r filled g l =
      rw filled (
        ap (λ m. m >>= load_indexed b s v) (failing_of "get invocation correlation index" _ _ g)
        ∙ l)

-- ===== src/Service/Sources.antt =====
-- internal/app/service.go: where an output and an artifact that are read by reference come from.
use underpass_runtime.Base.{
  ◌≡◌, if◌then◌else◌, refl, ap, ◌∙◌, ◌⊎◌, inl, inr, Option, none, some, List, [], ◌∷◌, Any,
  is_empty, Bool-cases, Option-cases, subst,
}
use underpass_runtime.Text.{Text, text_eq, trim_space}
use underpass_runtime.Text.Laws.{eq_of_text_eq}
use underpass_runtime.Json.{Json}
use underpass_runtime.Domain.{Invocation, Artifact}
use underpass_runtime.Service.Errors.{served}
use underpass_runtime.Service.Invoke.{◌>>=◌}
use underpass_runtime.Service.Ports.{Answer, answered, failed_with, Ports}
use underpass_runtime.Service.Reading.{
  find_artifact, listed_artifact, resolve_artifact, read_data, read_artifact_by_ref, with_output,
  hydrate_output_by_ref,
}

pub bind_answered :
    {A B : Type 0} (m : Answer A) (f : A → Answer B) {b : B}
    → (m >>= f) ≡ answered b
    → (a : A) × (m ≡ answered a) × (f a ≡ answered b)
bind_answered (answered a) f h = (a, refl, h)
bind_answered (failed_with message) f h = absurd (cc)

pub answered_inj : {A : Type 0} {a b : A} → answered a ≡ answered b → a ≡ b
answered_inj h = cc

pub served_inj : {A : Type 0} {a b : A} → served a ≡ served b → a ≡ b
served_inj h = cc

pub some_inj : {A : Type 0} {a b : A} → some a ≡ some b → a ≡ b
some_inj h = cc

module _ {S : Type 0} (p : Ports S) where
  -- The artifacts of the record, or those that the store lists for its id.
  abbrev pub IsListed : Invocation → List Artifact → Type 0
  IsListed inv xs = (xs ≡ inv.artifacts) ⊎ (p.list_artifacts inv.id ≡ answered xs)

  -- One of the artifacts has the id, and its file the payload.
  abbrev pub Holds : List Artifact → Text → Text → Type 0
  Holds xs ref payload = Any (λ x. (x.id ≡ ref) × (p.read_artifact x.path ≡ answered payload)) xs

  -- The output is that of the record, or, where that has none, is decoded from the artifact that it
  -- refers to.
  abbrev pub IsOutputOf : Invocation → List Artifact → Option Json → Type 0
  IsOutputOf stored xs output =
      (output ≡ stored.output)
      ⊎ ((payload : Text) × (value : Json) × (output ≡ some value)
          × (p.decode_output payload ≡ some value)
          × Holds xs stored.output_ref payload)

  -- The invocation is the stored one, but for its output and its artifacts, which belong to it.
  pub record IsView (stored inv : Invocation) : Type 0 where
    pub same : inv ≡ record stored { output = inv.output; artifacts = inv.artifacts }
    pub listed : IsListed stored inv.artifacts
    pub output : IsOutputOf stored inv.artifacts inv.output

  find_artifact-Holds :
      (xs : List Artifact) (ref payload : Text) (a : Artifact)
      → find_artifact xs ref ≡ some a
      → p.read_artifact a.path ≡ answered payload
      → Holds xs ref payload
  unfolding find_artifact
  find_artifact-Holds [] ref payload a h r = absurd (cc)
  find_artifact-Holds (x ∷ xs) ref payload a h r = elim (Bool-cases (text_eq x.id ref)) [
    | inl e ↦
        let same : x ≡ a = some_inj (rw e at h) in
        inl (eq_of_text_eq x.id ref e, ap (λ (y : Artifact). p.read_artifact y.path) same ∙ r)
    | inr e ↦ inr (find_artifact-Holds xs ref payload a (rw e at h) r)
  ]

  -- What finding an artifact gives: it, and the invocation with the artifacts it was found in.
  abbrev IsFound : Invocation → Text → Artifact × Invocation → Type 0
  IsFound inv ref (a, inv') =
      (inv' ≡ record inv { artifacts = inv'.artifacts })
      × IsListed inv inv'.artifacts
      × (find_artifact inv'.artifacts ref ≡ some a)

  listed_artifact-IsFound :
      (inv : Invocation) (ref : Text) (xs : List Artifact) (o : Option Artifact)
      (r : Artifact × Invocation)
      → p.list_artifacts inv.id ≡ answered xs
      → find_artifact xs ref ≡ o
      → listed_artifact inv ref xs ≡ answered r
      → IsFound inv ref r
  unfolding listed_artifact
  listed_artifact-IsFound inv ref xs none r l e h =
      absurd (let g = rw (listed_artifact, e) at h in cc)
  listed_artifact-IsFound inv ref xs (some a) r l e h =
      subst (IsFound inv ref) (answered_inj (rw (listed_artifact, e) at h)) (refl, inr l, e)

  resolve_artifact-IsFound :
      (inv : Invocation) (ref : Text) (r : Artifact × Invocation)
      → resolve_artifact p inv ref ≡ answered r
      → IsFound inv ref r
  unfolding resolve_artifact
  resolve_artifact-IsFound inv ref r h = elim (Option-cases (find_artifact inv.artifacts ref)) [
    | inl e ↦
        let (xs, l, g) =
          bind_answered (p.list_artifacts inv.id) (listed_artifact inv ref)
            (rw (resolve_artifact, e) at h) in
        listed_artifact-IsFound inv ref xs _ r l refl g
    | inr (a, e) ↦
        subst (IsFound inv ref) (answered_inj (rw (resolve_artifact, e) at h)) (refl, inl refl, e)
  ]

  -- What reading by a reference gives.
  abbrev pub IsRead : Invocation → Text → Text × Invocation → Type 0
  IsRead inv ref (payload, inv') =
      (inv' ≡ record inv { artifacts = inv'.artifacts })
      × IsListed inv inv'.artifacts
      × Holds inv'.artifacts ref payload

  read_data-IsRead :
      (inv : Invocation) (ref : Text) (a : Artifact) (inv' : Invocation) (m : Answer Text)
      (r : Text × Invocation)
      → IsFound inv ref (a, inv')
      → p.read_artifact a.path ≡ m
      → read_data m ref inv' ≡ answered r
      → IsRead inv ref r
  unfolding read_data
  read_data-IsRead inv ref a inv' (failed_with message) r f e h = absurd (cc)
  read_data-IsRead inv ref a inv' (answered payload) r (same, listed, found) e h =
      subst (IsRead inv ref) (answered_inj h)
        (same, listed, find_artifact-Holds inv'.artifacts ref payload a found e)

  pub read_artifact_by_ref-IsRead :
      (inv : Invocation) (ref : Text) (r : Text × Invocation)
      → read_artifact_by_ref p inv ref ≡ answered r
      → IsRead inv ref r
  unfolding read_artifact_by_ref
  read_artifact_by_ref-IsRead inv ref r h =
      let ((a, inv'), resolves, reads) = bind_answered (resolve_artifact p inv ref) _ h in
      read_data-IsRead inv ref a inv' _ r (resolve_artifact-IsFound inv ref (a, inv') resolves) refl
        reads

  with_output-IsView :
      (stored inv inv' : Invocation) (payload : Text) (o : Option Json)
      → IsRead stored stored.output_ref (payload, inv)
      → p.decode_output payload ≡ o
      → with_output p payload inv ≡ answered inv'
      → IsView stored inv'
  unfolding with_output
  with_output-IsView stored inv inv' payload none r e h =
      absurd (let g = rw (with_output, e) at h in cc)
  with_output-IsView stored inv inv' payload (some value) (same, listed, holds) e h =
      subst (IsView stored) (answered_inj (rw (with_output, e) at h)) (record {
        same = ap (λ (i : Invocation). record i { output = some value }) same;
        listed = listed;
        output = inr (payload, value, refl, e, holds);
      })

  stored-IsView : (stored inv : Invocation) → stored ≡ inv → IsView stored inv
  stored-IsView stored inv e =
      subst (IsView stored) e (record { same = refl; listed = inl refl; output = inl refl })

  hydrate_without :
      (stored inv : Invocation)
      → (if is_empty (trim_space stored.output_ref)
          then answered stored
          else read_artifact_by_ref p stored stored.output_ref
            >>= (λ (payload, inv'). with_output p payload inv'))
        ≡ answered inv
      → IsView stored inv
  hydrate_without stored inv h = elim (Bool-cases (is_empty (trim_space stored.output_ref))) [
    | inl b ↦ stored-IsView stored inv (answered_inj (rw b at h))
    | inr b ↦
        let ((payload, inv'), reads, decodes) =
          bind_answered (read_artifact_by_ref p stored stored.output_ref) _ (rw b at h) in
        with_output-IsView stored inv' inv payload _
          (read_artifact_by_ref-IsRead stored stored.output_ref (payload, inv') reads) refl decodes
  ]

  pub hydrate-IsView :
      (stored inv : Invocation) → hydrate_output_by_ref p stored ≡ answered inv → IsView stored inv
  unfolding hydrate_output_by_ref
  hydrate-IsView stored inv h = of stored.output h
    where
      of :
          (o : Option Json)
          → (elim o [
            | some value ↦ answered stored
            | none ↦
                if is_empty (trim_space stored.output_ref)
                then answered stored
                else read_artifact_by_ref p stored stored.output_ref
                  >>= (λ (payload, inv'). with_output p payload inv')
          ])
            ≡ answered inv
          → IsView stored inv
      of (some value) g = stored-IsView stored inv (answered_inj g)
      of none g = hydrate_without stored inv g

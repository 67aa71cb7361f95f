-- ===== src/Service/Given.antt =====
-- internal/app/service.go: what the reading of an invocation, its logs and its artifacts gives, against
-- what is stored.
use underpass_runtime.Base.{
  ◌≡◌, ◌≢◌, refl, sym, ap, ◌⊎◌, inl, inr, not, ◌||◌, Option, none, some, List, is_empty, Bool-cases,
}
use underpass_runtime.Text.{Text, split}
use underpass_runtime.Domain.{Invocation, Artifact, LogLine}
use underpass_runtime.Service.Errors.{ServiceError, Served, served, refused_by}
use underpass_runtime.Service.Ports.{Answer, answered, failed_with, Ports}
use underpass_runtime.Service.Reading.{
  read_artifact_by_ref, serve, hydrate_found, get_invocation, decode_lines, load_logs_by_ref,
  logs_of, get_invocation_logs, artifacts_of, get_invocation_artifacts,
}
use underpass_runtime.Service.Sources.{
  bind_answered, served_inj, IsListed, Holds, IsView, read_artifact_by_ref-IsRead, hydrate-IsView,
}

module _ {S : Type 0} (p : Ports S) where
  -- The logs are those of the record, or are decoded from the artifact that it refers to.
  abbrev pub IsLogOf : Invocation → List LogLine → Type 0
  IsLogOf inv logs =
      (logs ≡ inv.logs)
      ⊎ ((payload : Text) × (xs : List Artifact) × IsListed p inv xs
          × Holds p xs inv.logs_ref payload
          × (decode_lines p.decode_log_line (split 10 payload) ≡ answered logs))

  -- What is given for an id: a view of the invocation that is stored under it.
  pub record IsStoredView (store : S) (id : Text) (inv : Invocation) : Type 0 where
    pub stored : Invocation
    pub loaded : p.load store id ≡ answered (some stored)
    pub view : IsView p stored inv

  served_of : {A : Type 0} (m : Answer A) (a : A) → serve m ≡ served a → m ≡ answered a
  unfolding serve
  served_of (answered x) a h = ap (λ t. answered t) (served_inj h)
  served_of (failed_with message) a h = absurd (cc)

  found-IsStoredView :
      (store : S) (id : Text) (inv : Invocation) (m : Answer (Option Invocation))
      → p.load store id ≡ m
      → hydrate_found p m ≡ served inv
      → IsStoredView store id inv
  unfolding hydrate_found
  found-IsStoredView store id inv (failed_with message) e h = absurd (cc)
  found-IsStoredView store id inv (answered none) e h = absurd (cc)
  found-IsStoredView store id inv (answered (some stored)) e h = record {
    stored = stored;
    loaded = e;
    view = hydrate-IsView p stored inv (served_of _ inv h);
  }

  pub get_invocation-IsStoredView :
      (store : S) (id : Text) (inv : Invocation)
      → get_invocation p store id ≡ served inv
      → IsStoredView store id inv
  unfolding get_invocation
  get_invocation-IsStoredView store id inv h = found-IsStoredView store id inv _ refl h

  load_logs-IsLogOf :
      (inv : Invocation) (logs : List LogLine)
      → load_logs_by_ref p inv inv.logs_ref ≡ answered logs
      → IsLogOf inv logs
  unfolding load_logs_by_ref
  load_logs-IsLogOf inv logs h =
      let ((payload, inv'), reads, decodes) =
        bind_answered (read_artifact_by_ref p inv inv.logs_ref) _ h in
      let (same, listed, holds) =
        read_artifact_by_ref-IsRead p inv inv.logs_ref (payload, inv') reads in
      inr (payload, inv'.artifacts, listed, holds, decodes)

  logs_of-IsLogOf :
      (inv : Invocation) (logs : List LogLine)
      → logs_of p (served inv) ≡ served logs
      → IsLogOf inv logs
  unfolding logs_of
  logs_of-IsLogOf inv logs h =
      elim (Bool-cases (not (is_empty inv.logs) || is_empty inv.logs_ref)) [
        | inl e ↦ inl (sym (served_inj (rw e at h)))
        | inr e ↦ load_logs-IsLogOf inv logs (served_of _ logs (rw e at h))
      ]

  no_logs : {logs : List LogLine} (err : ServiceError) → logs_of p (refused_by err) ≢ served logs
  unfolding logs_of
  no_logs err h = cc

  no_artifacts :
      {xs : List Artifact} (id : Text) (err : ServiceError)
      → artifacts_of p id (refused_by err) ≢ served xs
  unfolding artifacts_of
  no_artifacts id err h = cc

  pub get_invocation_logs-IsLogOf :
      (store : S) (id : Text) (logs : List LogLine)
      → get_invocation_logs p store id ≡ served logs
      → (inv : Invocation) × IsStoredView store id inv × IsLogOf inv logs
  unfolding get_invocation_logs
  get_invocation_logs-IsLogOf store id logs h = of (get_invocation p store id) refl h
    where
      of :
          (r : Served Invocation)
          → get_invocation p store id ≡ r
          → logs_of p r ≡ served logs
          → (inv : Invocation) × IsStoredView store id inv × IsLogOf inv logs
      of (refused_by err) e g = absurd (no_logs err g)
      of (served inv) e g =
          (inv, get_invocation-IsStoredView store id inv e, logs_of-IsLogOf inv logs g)

  -- The artifacts are those of the invocation, or those that the store lists for the id.
  abbrev pub AreArtifactsOf : Text → Invocation → List Artifact → Type 0
  AreArtifactsOf id inv xs = (xs ≡ inv.artifacts) ⊎ (p.list_artifacts id ≡ answered xs)

  artifacts_of-AreArtifactsOf :
      (id : Text) (inv : Invocation) (xs : List Artifact)
      → artifacts_of p id (served inv) ≡ served xs
      → AreArtifactsOf id inv xs
  unfolding artifacts_of
  artifacts_of-AreArtifactsOf id inv xs h = elim (Bool-cases (not (is_empty inv.artifacts))) [
    | inl e ↦ inl (sym (served_inj (rw e at h)))
    | inr e ↦ inr (served_of _ xs (rw e at h))
  ]

  pub get_invocation_artifacts-AreArtifactsOf :
      (store : S) (id : Text) (xs : List Artifact)
      → get_invocation_artifacts p store id ≡ served xs
      → (inv : Invocation) × IsStoredView store id inv × AreArtifactsOf id inv xs
  unfolding get_invocation_artifacts
  get_invocation_artifacts-AreArtifactsOf store id xs h = of (get_invocation p store id) refl h
    where
      of :
          (r : Served Invocation)
          → get_invocation p store id ≡ r
          → artifacts_of p id r ≡ served xs
          → (inv : Invocation) × IsStoredView store id inv × AreArtifactsOf id inv xs
      of (refused_by err) e g = absurd (no_artifacts id err g)
      of (served inv) e g =
          (inv, get_invocation-IsStoredView store id inv e, artifacts_of-AreArtifactsOf id inv xs g)

-- ===== src/Service/Reading.antt =====
-- internal/app/service.go: reading an invocation, its logs and its artifacts.
use underpass_runtime.Base.{◌||◌, not, Option, none, some, List, [], ◌∷◌, is_empty, if◌then◌else◌}
use underpass_runtime.Text.{Text, text_eq, trim_space, split}
use underpass_runtime.Domain.{plain, text, wrapped, wrapped_naming, Invocation, Artifact, LogLine}
use underpass_runtime.Service.Errors.{Served, served, refused_by, not_found_error, internal_error}
use underpass_runtime.Service.Invoke.{◌>>=◌}
use underpass_runtime.Service.Ports.{Answer, answered, failed_with, Ports}

unfoldable pub find_artifact : List Artifact → Text → Option Artifact
find_artifact [] id = none
find_artifact (a ∷ rest) id = if text_eq a.id id then some a else find_artifact rest id

unfoldable pub listed_artifact : Invocation → Text → List Artifact → Answer (Artifact × Invocation)
listed_artifact inv id artifacts = elim (find_artifact artifacts id) [
  | some a ↦ answered (a, record inv { artifacts = artifacts })
  | none ↦ failed_with (wrapped "artifact ref not found" (text id))
]

-- The artifact, and the invocation with the artifacts that were listed to find it. (An error of
-- the caller discards the invocation.)
unfoldable pub resolve_artifact :
    {S : Type 0} → Ports S → Invocation → Text → Answer (Artifact × Invocation)
resolve_artifact p inv id = elim (find_artifact inv.artifacts id) [
  | some a ↦ answered (a, inv)
  | none ↦ p.list_artifacts inv.id >>= listed_artifact inv id
]

unfoldable pub read_data : Answer Text → Text → Invocation → Answer (Text × Invocation)
read_data (failed_with message) id inv = failed_with (wrapped_naming "read artifact" id message)
read_data (answered payload) id inv = answered (payload, inv)

unfoldable pub read_artifact_by_ref :
    {S : Type 0} → Ports S → Invocation → Text → Answer (Text × Invocation)
read_artifact_by_ref p inv id = do
  (a, inv') ← resolve_artifact p inv id
  read_data (p.read_artifact a.path) id inv'

unfoldable pub with_output : {S : Type 0} → Ports S → Text → Invocation → Answer Invocation
with_output p payload inv = elim (p.decode_output payload) [
  | none ↦ failed_with (plain "unmarshal invocation output artifact")
  | some value ↦ answered (record inv { output = some value })
]

unfoldable pub hydrate_output_by_ref : {S : Type 0} → Ports S → Invocation → Answer Invocation
hydrate_output_by_ref p inv = elim inv.output [
  | some value ↦ answered inv
  | none ↦
      if is_empty (trim_space inv.output_ref)
      then answered inv
      else read_artifact_by_ref p inv inv.output_ref
        >>= (λ (payload, inv'). with_output p payload inv')
]

unfoldable pub serve : {A : Type 0} → Answer A → Served A
serve (failed_with message) = refused_by (internal_error message)
serve (answered a) = served a

unfoldable pub hydrate_found :
    {S : Type 0} → Ports S → Answer (Option Invocation) → Served Invocation
hydrate_found p (failed_with message) = refused_by (internal_error message)
hydrate_found p (answered none) = refused_by (not_found_error (plain "invocation not found"))
hydrate_found p (answered (some inv)) = serve (hydrate_output_by_ref p inv)

unfoldable pub get_invocation : {S : Type 0} → Ports S → S → Text → Served Invocation
get_invocation p store id = hydrate_found p (p.load store id)

unfoldable pub decode_line : Option LogLine → Answer (List LogLine) → Answer (List LogLine)
decode_line none rest = failed_with (plain "unmarshal invocation log line")
decode_line (some item) rest = rest >>= (λ items. answered (item ∷ items))

-- blank lines are skipped
unfoldable pub decode_lines : (Text → Option LogLine) → List Text → Answer (List LogLine)
decode_lines decode [] = answered []
decode_lines decode (line ∷ lines) =
    let rest = decode_lines decode lines in
    if is_empty (trim_space line) then rest else decode_line (decode line) rest

unfoldable pub load_logs_by_ref : {S : Type 0} → Ports S → Invocation → Text → Answer (List LogLine)
load_logs_by_ref p inv logs_ref = do
  (payload, inv') ← read_artifact_by_ref p inv logs_ref
  decode_lines p.decode_log_line (split 10 payload)

unfoldable pub logs_of : {S : Type 0} → Ports S → Served Invocation → Served (List LogLine)
logs_of p (refused_by err) = refused_by err
logs_of p (served inv) =
    if not (is_empty inv.logs) || is_empty inv.logs_ref
    then served inv.logs
    else serve (load_logs_by_ref p inv inv.logs_ref)

unfoldable pub get_invocation_logs : {S : Type 0} → Ports S → S → Text → Served (List LogLine)
get_invocation_logs p store id = logs_of p (get_invocation p store id)

unfoldable pub artifacts_of :
    {S : Type 0} → Ports S → Text → Served Invocation → Served (List Artifact)
artifacts_of p id (refused_by err) = refused_by err
artifacts_of p id (served inv) =
    if not (is_empty inv.artifacts) then served inv.artifacts else serve (p.list_artifacts id)

unfoldable pub get_invocation_artifacts : {S : Type 0} → Ports S → S → Text → Served (List Artifact)
get_invocation_artifacts p store id = artifacts_of p id (get_invocation p store id)

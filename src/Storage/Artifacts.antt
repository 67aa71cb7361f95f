-- ===== src/Storage/Artifacts.antt =====
-- internal/adapters/storage/local_artifacts.go: artifacts as files in a directory of the invocation.
use underpass_runtime.Base.{
  ℕ, Bool, ◌&&◌, not, Option, none, some, List, [], ◌∷◌, ◌++◌, is_empty, ◌==◌, length,
  if◌then◌else◌, reverse,
}
use underpass_runtime.Text.{Text, codes, text_eq, trim_space, has_prefix}
use underpass_runtime.Text.FilePath.{clean, join_path}
use underpass_runtime.Domain.{plain, wrapped, Artifact}
use underpass_runtime.Service.Quota.{ArtifactPayload}
use underpass_runtime.Service.Invoke.{◌>>=◌}
use underpass_runtime.Service.Ports.{Answer, answered, failed_with}

-- An entry of a directory, with what Info and the hash of the file give (an error of these is one of
-- `read_dir`).
pub record Entry : Type 0 where
  pub name : Text
  pub is_dir : Bool
  pub size : ℕ
  pub hash : Text
  pub modified : ℕ

-- The file system, whose state is `D`, and the SHA-256 hash in hexadecimal. A directory that does not
-- exist has no entries.
pub record Disk (D : Type 0) : Type 0 where
  pub mkdir_all : D → Text → Answer D
  pub write_file : D → Text → Text → Answer D
  pub read_file : D → Text → Answer Text
  pub read_dir : D → Text → Answer (List Entry)
  pub sha256 : Text → Text

pub record LocalArtifactStore : Type 0 where
  pub base_path : Text

-- filepath.Base: the last segment
unfoldable pub drop_slashes : Text → Text
drop_slashes [] = []
drop_slashes (c ∷ s) = if c == b'/' then drop_slashes s else c ∷ s

unfoldable pub before_slash : Text → Text
before_slash [] = []
before_slash (c ∷ s) = if c == b'/' then [] else c ∷ before_slash s

unfoldable pub base_name : Text → Text
base_name [] = codes "."
base_name (c ∷ s) =
    let last = reverse (before_slash (drop_slashes (reverse (c ∷ s)))) in
    if is_empty last then codes "/" else last

-- strings.ReplaceAll(s, "..", "")
unfoldable pub without_double_dots : Text → Text
without_double_dots [] = []
without_double_dots (c ∷ []) = c ∷ []
without_double_dots (c ∷ d ∷ s) =
    let rest = without_double_dots s in
    let kept = c ∷ without_double_dots (d ∷ s) in if c == b'.' && d == b'.' then rest else kept

-- strings.ReplaceAll of one character by an underscore
unfoldable pub underscored : ℕ → Text → Text
underscored c [] = []
underscored c (d ∷ s) = (if d == c then b'_' else d) ∷ underscored c s

unfoldable pub sanitize_filename : Text → Text
sanitize_filename name =
    let trimmed = trim_space name in
    if is_empty trimmed
    then []
    else underscored b'\\' (underscored b'/' (without_double_dots (base_name trimmed)))

unfoldable pub stored_name : Text → Text
stored_name name =
    let clean_name = sanitize_filename name in
    if is_empty clean_name then codes "artifact.bin" else clean_name

-- the id that newArtifactID makes of random bytes in hexadecimal (without them, which is not
-- modelled, it is the text "artifact-fallback")
unfoldable pub artifact_id_of : Text → Text
artifact_id_of hex = codes "artifact-" ++ hex

unfoldable pub file_name_of : Text → Text → Text
file_name_of artifact_id name = artifact_id ++ (b'-' ∷ name)

-- strings.SplitN(name, "-", 2): the text before the first dash, and the text behind it
unfoldable pub split_dash : Text → Text × Option Text
split_dash [] = ([], none)
split_dash (c ∷ t) =
    let (before, behind) = split_dash t in if c == b'-' then ([], some t) else (c ∷ before, behind)

unfoldable pub name_behind : Text → Option Text → Text
name_behind whole none = whole
name_behind whole (some behind) = behind

unfoldable pub listed_artifact : Text → Entry → Artifact
listed_artifact dir entry = record {
  id = (split_dash entry.name).0;
  name = name_behind entry.name (split_dash entry.name).1;
  path = join_path dir entry.name;
  content_type = codes "application/octet-stream";
  size_bytes = entry.size;
  sha256 = entry.hash;
  created_at = entry.modified;
}

unfoldable pub list_entries : Text → List Entry → List Artifact
list_entries dir [] = []
list_entries dir (entry ∷ entries) =
    let rest = list_entries dir entries in
    if entry.is_dir then rest else listed_artifact dir entry ∷ rest

-- What one payload is saved with: the random bytes of its id, and the clock.
pub record Fresh : Type 0 where
  pub hex : Text
  pub now : ℕ

module _ {D : Type 0} (d : Disk D) (s : LocalArtifactStore) where
  unfoldable pub saved_artifact : Text → ArtifactPayload → Fresh → Artifact
  saved_artifact dir payload fresh = record {
    id = artifact_id_of fresh.hex;
    name = stored_name payload.name;
    path = join_path dir (file_name_of (artifact_id_of fresh.hex) (stored_name payload.name));
    content_type = payload.content_type;
    size_bytes = length payload.payload;
    sha256 = d.sha256 payload.payload;
    created_at = fresh.now;
  }

  unfoldable pub write_artifact : D → Artifact → Text → Answer D
  write_artifact disk a payload = elim (d.write_file disk a.path payload) [
    | failed_with message ↦ failed_with (wrapped "write artifact" message)
    | answered disk' ↦ answered disk'
  ]

  unfoldable pub save_artifacts :
      D → Text → List (ArtifactPayload × Fresh) → Answer (List Artifact × D)
  save_artifacts disk dir [] = answered ([], disk)
  save_artifacts disk dir ((payload, fresh) ∷ rest) =
      let a = saved_artifact dir payload fresh in
      do
        disk' ← write_artifact disk a payload.payload
        (artifacts, disk'') ← save_artifacts disk' dir rest
        answered (a ∷ artifacts, disk'')

  unfoldable pub save_in :
      Text → List (ArtifactPayload × Fresh) → Answer D → Answer (List Artifact × D)
  save_in dir payloads (failed_with message) = failed_with (wrapped "create artifact dir" message)
  save_in dir payloads (answered disk) = save_artifacts disk dir payloads

  unfoldable pub save : D → Text → List (ArtifactPayload × Fresh) → Answer (List Artifact × D)
  save disk invocation_id [] = answered ([], disk)
  save disk invocation_id (payload ∷ rest) =
      let dir = join_path s.base_path invocation_id in
      save_in dir (payload ∷ rest) (d.mkdir_all disk dir)

  unfoldable pub list : D → Text → Answer (List Artifact)
  list disk invocation_id =
      let dir = join_path s.base_path invocation_id in
      elim (d.read_dir disk dir) [
        | failed_with message ↦ failed_with (wrapped "list artifacts" message)
        | answered entries ↦ answered (list_entries dir entries)
      ]

  unfoldable pub read : D → Text → Answer Text
  read disk path =
      let clean_base = clean s.base_path in
      let clean_path = clean path in
      if not (text_eq clean_path clean_base)
        && not (has_prefix clean_path (clean_base ++ codes "/"))
      then failed_with (plain "artifact path outside base path")
      else elim (d.read_file disk clean_path) [
        | failed_with message ↦ failed_with (wrapped "read artifact" message)
        | answered contents ↦ answered contents
      ]

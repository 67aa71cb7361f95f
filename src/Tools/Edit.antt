-- ===== src/Tools/Edit.antt =====
-- internal/adapters/tools/insert_tools.go and undo_tools.go: fs.insert and workspace.undo_edit on a
-- local workspace. The files are a parameter, and so is the work on a Kubernetes workspace, which
-- runs shell commands. Of a result only the new contents of the file are kept: its hash, its number
-- of lines and the log are read off them.
use underpass_runtime.Base.{
  ℕ, String, false, Option, none, some, [], ◌∷◌, is_empty, ◌==◌, if◌then◌else◌,
}
use underpass_runtime.Text.{Text, codes}
use underpass_runtime.Text.FilePath.{slash, clean, join_three}
use underpass_runtime.Json.{ℤ, pos, negsuc}
use underpass_runtime.Domain.{Session, Error, Message, plain}
use underpass_runtime.Service.Runtime.{is_kubernetes}
use underpass_runtime.Tools.Path.{Resolution, resolved, rejected, resolve_path}
use underpass_runtime.Tools.Insert.{fs_insert_at_line}

pub data FileRead : Type 0 where
  contents : Text → FileRead
  missing : FileRead
  unreadable : Message → FileRead

-- os.ReadFile, os.WriteFile, os.MkdirAll of the directory of a path, os.Remove, and filepath.Rel
pub record FileSystem (D : Type 0) : Type 0 where
  pub read_file : D → Text → FileRead
  pub write_file : D → Text → Text → Option Message × D
  pub make_parent : D → Text → D
  pub remove : D → Text → D
  pub rel : Text → Text → Option Text

-- The new contents of the file, or the error, and the files.
pub data Edit (D : Type 0) : Type 0 where
  edited : Text → D → Edit D
  refused : Error → D → Edit D

abbrev pub undo_dir : Text
undo_dir = codes ".underpass-undo"

-- strings.ReplaceAll(path, "/", "__")
unfoldable pub flattened : Text → Text
flattened [] = []
flattened (c ∷ s) = if c == slash then b'_' ∷ b'_' ∷ flattened s else c ∷ flattened s

unfoldable pub undo_snapshot_path : Text → Text → Text
undo_snapshot_path workspace_path relative_path =
    join_three workspace_path undo_dir (flattened (clean relative_path))

abbrev pub edit_error : String → Message → Error
edit_error code message = record { code = code; message = message; retryable = false }

abbrev pub invalid : String → Error
invalid message = edit_error "invalid_argument" (plain message)

module _ {D : Type 0} (fs : FileSystem D) where
  unfoldable pub write_snapshot : Text → D → Text → Option Text → D
  write_snapshot workspace_path d original none = d
  write_snapshot workspace_path d original (some relative) =
      let file = undo_snapshot_path workspace_path relative in
      (fs.write_file (fs.make_parent d file) file original).1

  unfoldable pub snapshot_of : Text → D → Text → FileRead → D
  snapshot_of workspace_path d path (contents original) =
      write_snapshot workspace_path d original (fs.rel workspace_path path)
  snapshot_of workspace_path d path _ = d

  unfoldable pub save_undo_snapshot : Text → D → Text → D
  save_undo_snapshot workspace_path d path = snapshot_of workspace_path d path (fs.read_file d path)

  unfoldable pub written : Text → Option Message × D → Edit D
  written text (none, d) = edited text d
  written text (some message, d) = refused (edit_error "execution_failed" message) d

  unfoldable pub insert_read : D → Text → ℕ → Text → FileRead → Edit D
  insert_read d path line content missing = refused (invalid "path does not exist") d
  insert_read d path line content (unreadable message) =
      refused (edit_error "execution_failed" message) d
  insert_read d path line content (contents original) =
      let text = fs_insert_at_line original line content in written text (fs.write_file d path text)

  unfoldable pub insert_local : D → Text → ℕ → Text → Edit D
  insert_local d path line content = insert_read d path line content (fs.read_file d path)

  unfoldable pub without_snapshot : Text → Edit D → Edit D
  without_snapshot snapshot (refused err d) = refused err d
  without_snapshot snapshot (edited text d) = edited text (fs.remove d snapshot)

  unfoldable pub undo_read : D → Text → Text → FileRead → Edit D
  undo_read d snapshot path missing = refused (invalid "no undo snapshot for this file") d
  undo_read d snapshot path (unreadable message) = refused (edit_error "execution_failed" message) d
  undo_read d snapshot path (contents text) =
      without_snapshot snapshot (written text (fs.write_file d path text))

  -- `path` is the one that the tool is given, `target` the resolved one.
  unfoldable pub undo_local : D → Text → Text → Text → Edit D
  undo_local d path target workspace_path =
      let snapshot = undo_snapshot_path workspace_path path in
      undo_read d snapshot target (fs.read_file d snapshot)

-- The arguments of fs.insert, decoded.
pub record InsertRequest : Type 0 where
  pub path : Text
  pub line : ℤ
  pub content : Text

module _ {D : Type 0} (fs : FileSystem D) (session : Session) where
  unfoldable pub insert_resolved :
      (D → Text → ℕ → Text → Edit D) → D → ℕ → Text → Resolution → Edit D
  insert_resolved remote d line content (rejected err) = refused err d
  insert_resolved remote d line content (resolved path) =
      if is_kubernetes session.runtime.kind
      then remote d path line content
      else insert_local fs (save_undo_snapshot fs session.workspace_path d path) path line content

  unfoldable pub insert_line : (D → Text → ℕ → Text → Edit D) → D → Text → Text → ℤ → Edit D
  insert_line remote d path content (negsuc n) =
      refused (invalid "line must be >= 0 (0 = prepend)") d
  insert_line remote d path content (pos n) =
      insert_resolved remote d n content (resolve_path session path)

  unfoldable pub invoke_insert : (D → Text → ℕ → Text → Edit D) → D → Option InsertRequest → Edit D
  invoke_insert remote d none = refused (invalid "invalid fs.insert args") d
  invoke_insert remote d (some request) =
      if is_empty request.path
      then refused (invalid "path is required") d
      else if is_empty request.content
      then refused (invalid "content is required") d
      else insert_line remote d request.path request.content request.line

  unfoldable pub undo_resolved : (D → Text → Text → Edit D) → D → Text → Resolution → Edit D
  undo_resolved remote d path (rejected err) = refused err d
  undo_resolved remote d path (resolved target) =
      if is_kubernetes session.runtime.kind
      then remote d path target
      else undo_local fs d path target session.workspace_path

  unfoldable pub invoke_undo : (D → Text → Text → Edit D) → D → Option Text → Edit D
  invoke_undo remote d none = refused (invalid "invalid workspace.undo_edit args") d
  invoke_undo remote d (some path) =
      if is_empty path
      then refused (invalid "path is required") d
      else undo_resolved remote d path (resolve_path session path)

-- ===== src/Examples/Edits.antt =====
-- Edits of a workspace whose files are a map.
use underpass_runtime.Base.{
  drop, length, if◌then◌else◌, ℕ, any, inl, inr, false, Bool-cases, ◌≡◌, refl, sym, Option, none,
  some, [], ◌∷◌, ◌++◌,
}
use underpass_runtime.Text.{
  Text, codes, text_eq, has_prefix, has_suffix, trim_suffix, split, push_char, join,
}
use underpass_runtime.Text.Laws.{text_eq_refl, eq_of_text_eq}
use underpass_runtime.Text.FilePath.{
  clean, clean_stack, clean_step, parent_of, is_rooted, segments, render, join_path, join_three,
}
use underpass_runtime.TextMap.{TextMap, get, put, delete, get-put, get-delete}
use underpass_runtime.Tools.Insert.{newline, ended, insert_lines, insert_at, fs_insert_at_line}
use underpass_runtime.Tools.Edit.{
  FileRead, contents, missing, FileSystem, flattened, undo_snapshot_path, write_snapshot,
  snapshot_of, save_undo_snapshot, written, insert_read, insert_local, without_snapshot, undo_read,
  undo_local,
}
use underpass_runtime.Tools.Edit.{
  refused, invalid, InsertRequest, insert_resolved, insert_line, invoke_insert, undo_resolved,
  invoke_undo,
}
use underpass_runtime.Tools.Path.{
  resolve_path, resolve_cleaned, path_allowed, entry_allows, inside_workspace,
}
use underpass_runtime.Tools.Undo.{IsFiling}
use underpass_runtime.Tools.Undone.{target_of, invoke_undo-invoke_insert}
use underpass_runtime.Policy.Arguments.{or_workspace}
use underpass_runtime.Json.{pos}
use underpass_runtime.Domain.{Session, local}
use underpass_runtime.Service.Runtime.{is_kubernetes}
use underpass_runtime.Examples.Inputs.{admin_session}

abbrev file_read : Option Text → FileRead
file_read none = missing
file_read (some text) = contents text

-- filepath.Rel, for a clean target below the workspace
abbrev rel_below : Text → Text → Option Text
rel_below workspace path =
    if has_prefix path (clean workspace ++ codes "/")
    then some (drop (length (clean workspace ++ codes "/")) path)
    else none

abbrev files : FileSystem (TextMap Text)
files = record {
  read_file = λ d path. file_read (get d path);
  write_file = λ d path text. (none, put d path text);
  make_parent = λ d path. d;
  remove = λ d path. delete d path;
  rel = rel_below;
}

paths_differ : (a b : Text) → text_eq (clean a) (clean b) ≡ false → text_eq a b ≡ false
paths_differ a b h = elim (Bool-cases (text_eq a b)) [
  | inr e ↦ e
  | inl e ↦ absurd (cc (eq_of_text_eq a b e, text_eq_refl (clean b)))
]

files-IsFiling : IsFiling files
files-IsFiling = record {
  read_written = λ d d' path text h.
      let e : put d path text ≡ d' = cc in
      rw (sym e, get-put d path path text, text_eq_refl path) refl;
  read_other =
      λ d path text other apart. rw (get-put d path other text, paths_differ path other apart) refl;
  read_removed =
      λ d path other apart. rw (get-delete d path other, paths_differ path other apart) refl;
  read_parent = λ d path other text h. h;
}

abbrev snapshot : Text
snapshot = codes "/w/.underpass-undo/a"

abbrev target : Text
target = codes "/w/a"

abbrev before : TextMap Text
before = (target, codes "x") ∷ []

abbrev inserted : Text
inserted = codes "y" ++ (newline ∷ codes "x")

abbrev in_w : Session
in_w = record admin_session {
  runtime = record (admin_session.runtime) { kind = local };
  allowed_paths = [];
}

abbrev insertion : InsertRequest
insertion = record { path = codes "./a"; line = pos 0; content = codes "y" }

invoke_undo-invoke_insert_example :
    (n : ℕ) × (pos 0 ≡ pos n)
    × (inserted ≡ fs_insert_at_line (codes "x") n (codes "y"))
    × (files.read_file
          ((target, inserted) ∷ (snapshot, codes "x") ∷ [])
          (target_of in_w (codes "./a"))
        ≡ contents inserted)
    × (codes "x" ≡ codes "x")
    × (files.read_file before (target_of in_w (codes "./a")) ≡ contents (codes "x"))
unfolding clean clean_stack clean_step parent_of is_rooted segments render join_path join_three
    split push_char join text_eq has_prefix has_suffix trim_suffix get put delete ended insert_lines
    insert_at fs_insert_at_line flattened undo_snapshot_path write_snapshot snapshot_of
    save_undo_snapshot written insert_read insert_local without_snapshot undo_read undo_local
    insert_resolved insert_line invoke_insert undo_resolved invoke_undo resolve_path resolve_cleaned
    path_allowed entry_allows inside_workspace is_kubernetes any or_workspace
invoke_undo-invoke_insert_example =
    invoke_undo-invoke_insert files in_w (λ d path n content. refused (invalid "") d)
      (λ d path target. refused (invalid "") d) insertion (codes "x") inserted (codes "x") before
      ((target, inserted) ∷ (snapshot, codes "x") ∷ []) before files-IsFiling refl refl refl refl
      refl refl refl

-- The path "/a" opens the file of the path "a", but its snapshot has another name than that which
-- undoing the edit of "/a" looks for.
rooted_snapshot :
    (target_of in_w (codes "/a") ≡ target)
    × (undo_snapshot_path (codes "/w") (codes "/a") ≡ codes "/w/.underpass-undo/__a")
unfolding clean clean_stack clean_step parent_of is_rooted segments render join_path join_three
    split push_char join text_eq has_prefix flattened undo_snapshot_path
rooted_snapshot = (refl, refl)

-- Two files have one snapshot.
snapshots_shared :
    undo_snapshot_path (codes "/w") (codes "a/b") ≡ undo_snapshot_path (codes "/w") (codes "a__b")
unfolding clean clean_stack clean_step parent_of is_rooted segments render join_path join_three
    split push_char join text_eq has_prefix flattened undo_snapshot_path
snapshots_shared = refl

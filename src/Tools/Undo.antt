-- ===== src/Tools/Undo.antt =====
-- internal/adapters/tools/undo_tools.go: an insertion that is undone.
use underpass_runtime.Base.{ℕ, ◌≡◌, sym, ap, ◌∙◌, false, Option, none, some}
use underpass_runtime.Text.{Text, text_eq}
use underpass_runtime.Text.FilePath.{clean}
use underpass_runtime.Domain.{Message}
use underpass_runtime.Tools.Insert.{fs_insert_at_line}
use underpass_runtime.Tools.Edit.{
  contents, FileSystem, Edit, edited, refused, undo_snapshot_path, write_snapshot, snapshot_of,
  save_undo_snapshot, written, insert_read, insert_local, without_snapshot, undo_read, undo_local,
}

-- What the handlers rely on, where files have no links: a file that is written is read under the same
-- path, and no file whose clean path differs changes by a write, by a removal, or by a directory that
-- is made.
pub record IsFiling {D : Type 0} (fs : FileSystem D) : Type 0 where
  pub read_written :
      (d d' : D) (path text : Text)
      → fs.write_file d path text ≡ (none, d')
      → fs.read_file d' path ≡ contents text
  pub read_other :
      (d : D) (path text other : Text)
      → text_eq (clean path) (clean other) ≡ false
      → fs.read_file (fs.write_file d path text).1 other ≡ fs.read_file d other
  pub read_removed :
      (d : D) (path other : Text)
      → text_eq (clean path) (clean other) ≡ false
      → fs.read_file (fs.remove d path) other ≡ fs.read_file d other
  pub read_parent :
      (d : D) (path other text : Text)
      → fs.read_file d other ≡ contents text
      → fs.read_file (fs.make_parent d path) other ≡ contents text

module _ {D : Type 0} (fs : FileSystem D) (files : IsFiling fs) where
  written_edited :
      (text x : Text) (r : Option Message × D) (d' : D)
      → written fs text r ≡ edited x d'
      → (x ≡ text) × (r ≡ (none, d'))
  unfolding written
  written_edited text x (none, d) d' h =
      let e : text ≡ x = cc in let f : d ≡ d' = cc in (sym e, ap (λ u. (none, u)) f)
  written_edited text x (some message, d) d' h = absurd (cc)

  removed_edited :
      (snapshot y : Text) (e : Edit D) (d' : D)
      → without_snapshot fs snapshot e ≡ edited y d'
      → (d : D) × (e ≡ edited y d) × (d' ≡ fs.remove d snapshot)
  unfolding without_snapshot
  removed_edited snapshot y (refused err d) d' h = absurd (cc)
  removed_edited snapshot y (edited text d) d' h =
      let e : text ≡ y = cc in
      let f : fs.remove d snapshot ≡ d' = cc in (d, ap (λ t. edited t d) e, sym f)

  ok_pair : (r : Option Message × D) → r.0 ≡ none → r ≡ (none, r.1)
  ok_pair (o, d) h = ap (λ x. (x, d)) h

  -- The snapshot has the contents of the file, and so has the file.
  saved :
      (workspace target original relative : Text) (d : D)
      → fs.read_file d target ≡ contents original
      → fs.rel workspace target ≡ some relative
      → text_eq (clean (undo_snapshot_path workspace relative)) (clean target) ≡ false
      → (fs.write_file
          (fs.make_parent d (undo_snapshot_path workspace relative))
          (undo_snapshot_path workspace relative)
          original).0
        ≡ none
      → (fs.read_file
            (save_undo_snapshot fs workspace d target)
            (undo_snapshot_path workspace relative)
          ≡ contents original)
        × (fs.read_file (save_undo_snapshot fs workspace d target) target ≡ contents original)
  unfolding save_undo_snapshot snapshot_of write_snapshot
  saved workspace target original relative d reads relates apart writes =
      let file = undo_snapshot_path workspace relative in
      let made = fs.make_parent d file in
      rw (reads, relates)
        (
          files.read_written made _ file original
              (ok_pair (fs.write_file made file original) writes),
          files.read_other made file original target apart
              ∙ files.read_parent d file target original reads,
        )

  pub undo_local-insert_local :
      (workspace path target original relative content x y : Text) (line : ℕ) (d d2 d3 : D)
      → fs.read_file d target ≡ contents original
      → fs.rel workspace target ≡ some relative
      → undo_snapshot_path workspace path ≡ undo_snapshot_path workspace relative
      → text_eq (clean (undo_snapshot_path workspace relative)) (clean target) ≡ false
      → text_eq (clean target) (clean (undo_snapshot_path workspace relative)) ≡ false
      → (fs.write_file
          (fs.make_parent d (undo_snapshot_path workspace relative))
          (undo_snapshot_path workspace relative)
          original).0
        ≡ none
      → insert_local fs (save_undo_snapshot fs workspace d target) target line content ≡ edited x d2
      → undo_local fs d2 path target workspace ≡ edited y d3
      → (x ≡ fs_insert_at_line original line content)
        × (y ≡ original)
        × (fs.read_file d2 target ≡ contents x)
        × (fs.read_file d3 target ≡ contents original)
  unfolding insert_local insert_read undo_local undo_read
  undo_local-insert_local workspace path target original relative content x y line d d2 d3 reads
        relates named apart apart' writes inserts undoes =
      let file = undo_snapshot_path workspace relative in
      let d1 = save_undo_snapshot fs workspace d target in
      let text = fs_insert_at_line original line content in
      let (kept, still) = saved workspace target original relative d reads relates apart writes in
      let (a, b) = written_edited text x (fs.write_file d1 target text) d2 (rw still at inserts) in
      let at_snapshot : fs.read_file d2 file ≡ contents original =
        ap (λ (r : Option Message × D). fs.read_file r.1 file) (sym b)
        ∙ files.read_other d1 target text file apart'
        ∙ kept in
      let (d', e, f) =
        removed_edited file y (written fs original (fs.write_file d2 target original)) d3
          (rw (named, at_snapshot) at undoes) in
      let (g, h) = written_edited original y (fs.write_file d2 target original) d' e in
      (
        a,
        g,
        files.read_written d1 d2 target text b ∙ ap (λ t. contents t) (sym a),
        ap (λ u. fs.read_file u target) f
            ∙ files.read_removed d' file target apart
            ∙ files.read_written d2 d' target original h,
      )

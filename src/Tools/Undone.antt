-- ===== src/Tools/Undone.antt =====
-- internal/adapters/tools/insert_tools.go and undo_tools.go: fs.insert, and workspace.undo_edit after
-- it.
use underpass_runtime.Base.{
  ℕ, ◌≡◌, refl, sym, ap, ◌∙◌, subst, Bool, true, false, none, some, [], ◌∷◌, is_empty,
  if◌then◌else◌,
}
use underpass_runtime.Text.{Text, text_eq}
use underpass_runtime.Text.Laws.{text_eq_flip}
use underpass_runtime.Text.FilePath.{clean, join_path, join_three}
use underpass_runtime.Text.FilePath.Normal.{clean_idem}
use underpass_runtime.Json.{ℤ, pos, negsuc}
use underpass_runtime.Domain.{Session, Error}
use underpass_runtime.Service.Runtime.{is_kubernetes}
use underpass_runtime.Tools.Path.{
  Resolution, resolved, rejected, resolve_path, or_dot, resolve_path-IsResolved,
}
use underpass_runtime.Tools.Insert.{fs_insert_at_line}
use underpass_runtime.Tools.Edit.{
  contents, FileSystem, Edit, edited, refused, undo_dir, flattened, undo_snapshot_path,
  save_undo_snapshot, insert_local, undo_local, InsertRequest, insert_resolved, insert_line,
  invoke_insert, undo_resolved, invoke_undo,
}
use underpass_runtime.Tools.Undo.{IsFiling, undo_local-insert_local}

-- The file that a path names in a session's workspace.
abbrev pub target_of : Session → Text → Text
target_of session path = clean (join_path session.workspace_path (clean path))

undo_snapshot_path-clean :
    (workspace path : Text)
    → undo_snapshot_path workspace path ≡ undo_snapshot_path workspace (clean path)
unfolding undo_snapshot_path
undo_snapshot_path-clean workspace path =
    ap (λ t. join_three workspace undo_dir (flattened t)) (sym (clean_idem path))

not_refused :
    {D : Type 0} (b : Bool) (err : Error) (d d' : D) (x : Text) (e : Edit D)
    → (if b then refused err d else e) ≡ edited x d'
    → (b ≡ false) × (e ≡ edited x d')
not_refused true err d d' x e h = absurd (cc)
not_refused false err d d' x e h = (refl, h)

or_dot_filled : (path : Text) → is_empty path ≡ false → or_dot path ≡ path
or_dot_filled [] h = absurd (cc)
or_dot_filled (c ∷ path) h = refl

target_lem :
    (session : Session) (path target : Text)
    → is_empty path ≡ false
    → resolve_path session path ≡ resolved target
    → target ≡ target_of session path
target_lem session path target filled h =
    (resolve_path-IsResolved session path target h).joined
    ∙ ap (target_of session) (or_dot_filled path filled)

module _ {D : Type 0} (fs : FileSystem D) (session : Session)
    (local : is_kubernetes session.runtime.kind ≡ false) where
  insert_resolved-local :
      (remote : D → Text → ℕ → Text → Edit D) (d d2 : D) (n : ℕ) (path content x : Text)
      (r : Resolution)
      → is_empty path ≡ false
      → resolve_path session path ≡ r
      → insert_resolved fs session remote d n content r ≡ edited x d2
      → insert_local fs
          (save_undo_snapshot fs session.workspace_path d (target_of session path))
          (target_of session path)
          n
          content
        ≡ edited x d2
  unfolding insert_resolved
  insert_resolved-local remote d d2 n path content x (rejected err) filled e h = absurd (cc)
  insert_resolved-local remote d d2 n path content x (resolved t) filled e h =
      subst
        (λ u.
          insert_local fs (save_undo_snapshot fs session.workspace_path d u) u n content
          ≡ edited x d2)
        (target_lem session path t filled e) (rw local at h)

  -- A place of the insertion, and the work on the file there.
  abbrev InsertsAt : D → Text → Text → ℤ → Text → D → Type 0
  InsertsAt d path content line x d2 =
      (n : ℕ) × (line ≡ pos n)
      × (insert_local fs (save_undo_snapshot fs session.workspace_path d (target_of session path))
            (target_of session path) n content
          ≡ edited x d2)

  insert_line-InsertsAt :
      (remote : D → Text → ℕ → Text → Edit D) (d d2 : D) (path content x : Text) (line : ℤ)
      → is_empty path ≡ false
      → insert_line fs session remote d path content line ≡ edited x d2
      → InsertsAt d path content line x d2
  unfolding insert_line
  insert_line-InsertsAt remote d d2 path content x (negsuc n) filled h = absurd (cc)
  insert_line-InsertsAt remote d d2 path content x (pos n) filled h =
      (n, refl, insert_resolved-local remote d d2 n path content x _ filled refl h)

  invoke_insert-InsertsAt :
      (remote : D → Text → ℕ → Text → Edit D) (d d2 : D) (request : InsertRequest) (x : Text)
      → invoke_insert fs session remote d (some request) ≡ edited x d2
      → InsertsAt d request.path request.content request.line x d2
  unfolding invoke_insert
  invoke_insert-InsertsAt remote d d2 request x h =
      let (filled, h1) = not_refused _ _ d d2 x _ h in
      let (given, h2) = not_refused _ _ d d2 x _ h1 in
      insert_line-InsertsAt remote d d2 request.path request.content x request.line filled h2

  undo_resolved-local :
      (remote : D → Text → Text → Edit D) (d d3 : D) (path y : Text) (r : Resolution)
      → is_empty path ≡ false
      → resolve_path session path ≡ r
      → undo_resolved fs session remote d path r ≡ edited y d3
      → undo_local fs d path (target_of session path) session.workspace_path ≡ edited y d3
  unfolding undo_resolved
  undo_resolved-local remote d d3 path y (rejected err) filled e h = absurd (cc)
  undo_resolved-local remote d d3 path y (resolved t) filled e h =
      subst (λ u. undo_local fs d path u session.workspace_path ≡ edited y d3)
        (target_lem session path t filled e) (rw local at h)

  invoke_undo-local :
      (remote : D → Text → Text → Edit D) (d d3 : D) (path y : Text)
      → invoke_undo fs session remote d (some path) ≡ edited y d3
      → undo_local fs d path (target_of session path) session.workspace_path ≡ edited y d3
  unfolding invoke_undo
  invoke_undo-local remote d d3 path y h =
      let (filled, h1) = not_refused _ _ d d3 y _ h in
      undo_resolved-local remote d d3 path y _ filled refl h1

-- On a local workspace, when fs.insert changes a file and workspace.undo_edit is then called with
-- the same path and succeeds too: the line of the insertion was not negative, the file had, in
-- between, its contents with the lines inserted there, and the undo gives, and leaves in the file,
-- the contents from before. Here filepath.Rel gives back the clean path that was joined to the
-- workspace (as it does for a path that does not begin with a slash), the snapshot could be written,
-- the file is not its own snapshot, and the files are as IsFiling says.
pub invoke_undo-invoke_insert :
    {D : Type 0} (fs : FileSystem D) (session : Session) (remote : D → Text → ℕ → Text → Edit D)
    (remote' : D → Text → Text → Edit D) (request : InsertRequest) (original x y : Text)
    (d d2 d3 : D)
    → IsFiling fs
    → is_kubernetes session.runtime.kind ≡ false
    → fs.read_file d (target_of session request.path) ≡ contents original
    → fs.rel session.workspace_path (target_of session request.path) ≡ some (clean request.path)
    → text_eq
        (clean (undo_snapshot_path session.workspace_path (clean request.path)))
        (clean (target_of session request.path))
      ≡ false
    → (fs.write_file
        (fs.make_parent d (undo_snapshot_path session.workspace_path (clean request.path)))
        (undo_snapshot_path session.workspace_path (clean request.path))
        original).0
      ≡ none
    → invoke_insert fs session remote d (some request) ≡ edited x d2
    → invoke_undo fs session remote' d2 (some request.path) ≡ edited y d3
    → (n : ℕ) × (request.line ≡ pos n)
      × (x ≡ fs_insert_at_line original n request.content)
      × (fs.read_file d2 (target_of session request.path) ≡ contents x)
      × (y ≡ original)
      × (fs.read_file d3 (target_of session request.path) ≡ contents original)
invoke_undo-invoke_insert fs session remote remote' request original x y d d2 d3 files local reads
      relates apart writes inserts undoes =
    let (n, at_line, inserted) =
      invoke_insert-InsertsAt fs session local remote d d2 request x inserts in
    let (a, b, c, e) =
      undo_local-insert_local fs files session.workspace_path request.path
        (target_of session request.path) original (clean request.path) request.content x y n d d2 d3
        reads relates (undo_snapshot_path-clean session.workspace_path request.path) apart
        (text_eq_flip _ _ apart) writes inserted
        (invoke_undo-local fs session local remote' d2 d3 request.path y undoes) in
    (n, at_line, a, c, b, e)

-- ===== src/Workspace/Local.antt =====
-- internal/adapters/workspace/local_manager.go: sessions in directories of the host. Making, filling
-- and removing a directory is the host's; what is removed is listed, the newest first.
use underpass_runtime.Base.{
  ℕ, ◌+◌, ◌*◌, ◌||◌, Option, none, some, List, [], ◌∷◌, ltb, is_empty, if◌then◌else◌,
}
use underpass_runtime.Text.{Text, codes, text_eq}
use underpass_runtime.Text.FilePath.{join_path, join_three}
use underpass_runtime.TextMap.{TextMap, get, put, delete}
use underpass_runtime.Domain.{Session, Message, plain, wrapped, local}
use underpass_runtime.Service.Ports.{Answer, answered, failed_with, CreateSessionRequest}

-- os.MkdirAll, copyDirectory, cloneRepo and os.RemoveAll: an error, or nothing
pub record Files : Type 0 where
  pub mkdir_all : Text → Option Message
  pub copy_directory : Text → Text → Option Message
  pub clone_repo : Text → Text → Text → Option Message
  pub remove_all : Text → Option Message

pub record LocalManager : Type 0 where
  pub base_path : Text
  pub session : TextMap Session
  pub roots : TextMap Text
  pub removed : List Text

unfoldable pub new_local_manager : Text → LocalManager
new_local_manager base_path = record {
  base_path = base_path;
  session = [];
  roots = [];
  removed = [];
}

unfoldable pub session_id_or : Text → Text → Text
session_id_or requested new_id = if is_empty requested then new_id else requested

unfoldable pub workspace_root : LocalManager → Text → Text → Text
workspace_root m tenant_id session_id = join_three m.base_path tenant_id session_id

unfoldable pub copy_failure : Option Message → Option Message
copy_failure none = none
copy_failure (some message) = some (wrapped "copy source repo" message)

-- the sources of the workspace: a directory before a repository
unfoldable pub fill_workspace : Files → CreateSessionRequest → Text → Option Message
fill_workspace files req repo_root =
    if is_empty req.source_repo_path
    then (if is_empty req.repo_url
        then none
        else files.clone_repo req.repo_url req.repo_ref repo_root)
    else copy_failure (files.copy_directory req.source_repo_path repo_root)

unfoldable pub or_here : List Text → List Text
or_here paths = if is_empty paths then codes "." ∷ [] else paths

unfoldable pub session_in : CreateSessionRequest → Text → Text → ℕ → Session
session_in req session_id repo_root now = record {
  id = session_id;
  workspace_path = repo_root;
  runtime = record {
    kind = local;
    namespace = [];
    pod_name = [];
    container = [];
    container_id = [];
    workdir = repo_root;
  };
  repo_url = req.repo_url;
  repo_ref = req.repo_ref;
  allowed_paths = or_here req.allowed_paths;
  principal = req.principal;
  metadata = req.metadata;
  created_at = now;
  expires_at = now + req.expires_in_second * 1000000000;
}

unfoldable pub add_session : LocalManager → Session → Text → Answer Session × LocalManager
add_session m s root =
    (answered s, record m { session = put m.session s.id s; roots = put m.roots s.id root })

unfoldable pub fill_session :
    LocalManager
    → CreateSessionRequest
    → Session
    → Text
    → Option Message
    → Answer Session × LocalManager
fill_session m req s root (some message) = (failed_with message, m)
fill_session m req s root none = add_session m s root

unfoldable pub make_session :
    Files
    → LocalManager
    → CreateSessionRequest
    → Session
    → Text
    → Option Message
    → Answer Session × LocalManager
make_session files m req s root (some message) =
    (failed_with (wrapped "create workspace" message), m)
make_session files m req s root none =
    fill_session m req s root (fill_workspace files req s.workspace_path)

-- `new_id` is what newSessionID gives.
unfoldable pub create_session :
    Files → LocalManager → CreateSessionRequest → Text → ℕ → Answer Session × LocalManager
create_session files m req new_id now =
    let session_id = session_id_or req.session_id new_id in
    let root = workspace_root m req.principal.tenant_id session_id in
    let repo_root = join_path root (codes "repo") in
    make_session files m req (session_in req session_id repo_root now) root
      (files.mkdir_all repo_root)

unfoldable pub remove_root : Files → LocalManager → Option Text → Option Message × LocalManager
remove_root files m none = (none, m)
remove_root files m (some root) =
    if is_empty root || text_eq root (codes "/")
    then (some (plain "refusing to remove invalid workspace root"), m)
    else (files.remove_all root, record m { removed = root ∷ m.removed })

unfoldable pub close_session : Files → LocalManager → Text → Option Message × LocalManager
close_session files m session_id =
    remove_root files
      (record m { session = delete m.session session_id; roots = delete m.roots session_id })
      (get m.roots session_id)

-- an error of the removal is only logged
unfoldable pub live_session :
    Files → LocalManager → Text → ℕ → Option Session → Option Session × LocalManager
live_session files m session_id now none = (none, m)
live_session files m session_id now (some s) =
    if ltb s.expires_at now then (none, (close_session files m session_id).1) else (some s, m)

unfoldable pub get_session : Files → LocalManager → Text → ℕ → Option Session × LocalManager
get_session files m session_id now = live_session files m session_id now (get m.session session_id)

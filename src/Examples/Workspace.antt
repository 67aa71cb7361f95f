-- ===== src/Examples/Workspace.antt =====
-- The local manager on a host where every operation succeeds.
use underpass_runtime.Base.{◌≡◌, ◌≤◌, refl, none, some, List, [], ◌∷◌}
use underpass_runtime.Text.{
  trim_space, trim_left, trim_right, snoc_space, is_space, Text, codes, text_eq, has_prefix, split,
  push_char, join,
}
use underpass_runtime.Text.FilePath.{
  clean, clean_stack, clean_step, parent_of, is_rooted, segments, render, join_path, join_three,
}
use underpass_runtime.TextMap.{get, put, delete}
use underpass_runtime.Domain.{Session, Principal}
use underpass_runtime.Service.Ports.{CreateSessionRequest}
use underpass_runtime.Workspace.Local.{
  Files, LocalManager, new_local_manager, session_id_or, workspace_root, copy_failure,
  fill_workspace, or_here, session_in, add_session, fill_session, make_session, create_session,
  live_session, get_session, close_session, remove_root,
}
use underpass_runtime.Workspace.Local
use underpass_runtime.Service.Sessions
use underpass_runtime.Service.Sessions.{with_lifetime, after_create, report_created}
use underpass_runtime.Grpc.Auth.{Context}
use underpass_runtime.Grpc.Server
use underpass_runtime.Grpc.Ownership.{IsOwned, create_session-IsOwned}
use underpass_runtime.Examples.Inputs.{good_ports, new_world}
use underpass_runtime.Workspace.Sessions.{
  ManagerCall, creates, closes, after_call, after_calls, IsCreated, create_session-IsCreated,
  get_session-after_calls,
}

abbrev files : Files
files = record {
  mkdir_all = λ path. none;
  copy_directory = λ source target. none;
  clone_repo = λ url ref target. none;
  remove_all = λ path. none;
}

abbrev principal_of : Text → Principal
principal_of actor = record { tenant_id = codes "t"; actor_id = actor; roles = [] }

abbrev request_of : Text → CreateSessionRequest
request_of actor = record {
  session_id = codes "s1";
  repo_url = [];
  repo_ref = [];
  source_repo_path = [];
  allowed_paths = [];
  principal = principal_of actor;
  metadata = [];
  expires_in_second = 10;
}

abbrev empty_manager : LocalManager
empty_manager = record { base_path = codes "/b"; session = []; roots = []; removed = [] }

abbrev session_of : Text → Session
session_of actor = session_in (request_of actor) (codes "s1") (codes "/b/t/s1/repo") 5

-- A manager that holds a session of `a` under the id that `b` asks for.
abbrev held_by_a : LocalManager
held_by_a = (add_session empty_manager (session_of (codes "a")) (codes "/b/t/s1")).1

create_session-IsCreated_example :
    IsCreated files held_by_a
      (request_of (codes "b"))
      (codes "n")
      (session_in (request_of (codes "b")) (codes "s1") (codes "/b/t/s1/repo") 7)
      (create_session files held_by_a (request_of (codes "b")) (codes "n") 7).1
unfolding add_session session_in or_here workspace_root join_three session_id_or join_path clean
    clean_stack clean_step parent_of is_rooted segments render split push_char text_eq has_prefix
    join get put delete copy_failure fill_workspace fill_session make_session create_session
create_session-IsCreated_example =
    create_session-IsCreated files held_by_a (request_of (codes "b")) (codes "n") 7
      (session_in (request_of (codes "b")) (codes "s1") (codes "/b/t/s1/repo") 7) refl

abbrev some_calls : List ManagerCall
some_calls = creates (request_of (codes "a")) (codes "n") 5 ∷ closes (codes "s2") ∷ []

get_session-after_calls_example :
    (codes "s1" ≡ codes "s1")
    × (9 ≤ (session_of (codes "a")).expires_at)
    × (get (after_calls files (new_local_manager (codes "/b")) some_calls).roots (codes "s1")
        ≡ some (
            workspace_root
              (after_calls files (new_local_manager (codes "/b")) some_calls)
              (codes "t")
              (codes "s1")))
unfolding add_session session_in or_here after_call after_calls new_local_manager get_session
    live_session close_session remove_root workspace_root join_three session_id_or join_path clean
    clean_stack clean_step parent_of is_rooted segments render split push_char text_eq has_prefix
    join get put delete copy_failure fill_workspace fill_session make_session create_session
get_session-after_calls_example =
    get_session-after_calls files (codes "/b") some_calls (codes "s1") 9 (session_of (codes "a"))
      refl

-- An id with steps to the parent names a directory outside the base path.
root_outside : workspace_root empty_manager (codes "t") (codes "../../x") ≡ codes "/x"
unfolding workspace_root join_three clean clean_stack clean_step parent_of is_rooted segments render
    split push_char text_eq has_prefix join
root_outside = refl

-- `b` asks, by an authenticated call, for a session under an id that is held, in the name of `a`.
abbrev by_b : Context
by_b = record { metadata = none; principal = some (principal_of (codes "b")) }

abbrev made_for_b : Session
made_for_b = session_in (request_of (codes "b")) (codes "s1") (codes "/b/t/s1/repo") 7

create_session-IsOwned_example :
    IsOwned good_ports files
      (Local.create_session files held_by_a
        (with_lifetime (request_of (codes "b")))
        (codes "n")
        7).1
      (codes "n")
      (request_of (codes "a"))
      (principal_of (codes "b"))
      7
      new_world
      made_for_b
      (report_created good_ports new_world made_for_b)
unfolding add_session session_in or_here workspace_root join_three session_id_or join_path clean
    clean_stack clean_step parent_of is_rooted segments render split push_char text_eq has_prefix
    join copy_failure fill_workspace fill_session make_session create_session get put delete
    with_lifetime after_create Sessions.create_session Server.create_session Server.with_principal
    Server.reply_of trim_space trim_left trim_right snoc_space is_space report_created
create_session-IsOwned_example =
    create_session-IsOwned good_ports files held_by_a (codes "n") 7 by_b (request_of (codes "a"))
      (principal_of (codes "b")) new_world (report_created good_ports new_world made_for_b)
      made_for_b refl refl refl refl

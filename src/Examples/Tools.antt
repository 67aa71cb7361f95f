-- ===== src/Examples/Tools.antt =====
-- The tools' paths on concrete requests.
use underpass_runtime.Base.{inl, ◌≡◌, refl, [], ◌∷◌, ◌++◌, any, take, drop}
use underpass_runtime.Text.{
  Text, codes, text_eq, has_prefix, has_suffix, trim_suffix, push_char, split, join,
}
use underpass_runtime.Text.FilePath.{
  parent_of, clean_step, clean_stack, is_rooted, segments, render, clean, join_path,
}
use underpass_runtime.Policy.Arguments.{is_path_within_allowlist, or_workspace}
use underpass_runtime.Tools.Path.{
  resolved, entry_allows, path_allowed, inside_workspace, resolve_cleaned, resolve_path,
  path_allowed-clean, IsResolved, resolve_path-IsResolved,
}
use underpass_runtime.Tools.Insert.{
  newline, ended, insert_lines, insert_at, fs_insert_at_line, split-fs_insert_at_line,
}
use underpass_runtime.Examples.Inputs.{admin_session}

detour_resolved :
    resolve_path admin_session (codes "docs/../docs//a") ≡ resolved (codes "/w/docs/a")
unfolding resolve_path resolve_cleaned inside_workspace path_allowed entry_allows any or_workspace
    join_path clean render segments is_rooted clean_stack clean_step parent_of join split push_char
    has_prefix text_eq
detour_resolved = refl

resolve_path-IsResolved_example :
    IsResolved admin_session (codes "docs/../docs//a") (codes "/w/docs/a")
resolve_path-IsResolved_example =
    resolve_path-IsResolved admin_session (codes "docs/../docs//a") (codes "/w/docs/a")
      detour_resolved

path_allowed-clean_example :
    path_allowed (clean (codes "docs/../src")) (codes "docs" ∷ [])
    ≡ is_path_within_allowlist (codes "docs/../src") (or_workspace (codes "docs" ∷ []))
path_allowed-clean_example = path_allowed-clean (codes "docs/../src") (codes "docs" ∷ [])

abbrev two_lines : Text
two_lines = codes "a" ++ (newline ∷ codes "b")

-- Behind the end of the file, with a newline at the end of the content.
split-fs_insert_at_line_example :
    (split newline (fs_insert_at_line two_lines 5 (codes "x" ++ (newline ∷ [])))
      ≡ take 5 (split newline two_lines)
        ++ (split newline (codes "x") ++ drop 5 (split newline two_lines)))
    × (join newline (take 5 (split newline two_lines) ++ drop 5 (split newline two_lines))
        ≡ two_lines)
split-fs_insert_at_line_example =
    split-fs_insert_at_line two_lines 5 (codes "x" ++ (newline ∷ [])) (codes "x") (inl refl)

inserted_between :
    fs_insert_at_line two_lines 1 (codes "x")
    ≡ codes "a" ++ (newline ∷ (codes "x" ++ (newline ∷ codes "b")))
unfolding fs_insert_at_line insert_at insert_lines ended has_suffix trim_suffix has_prefix split
    push_char join
inserted_between = refl

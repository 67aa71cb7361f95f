-- ===== src/Text/FilePath.antt =====
-- Go's `filepath.Clean` and `filepath.Join` on Unix: a path is read as its segments between
-- slashes, and cleaned by a stack of the segments that are kept (the top first).
pub mod Normal
use underpass_runtime.Base.{ℕ, Bool, true, false, List, [], ◌∷◌, ◌++◌, is_empty, if◌then◌else◌}
use mathlib.Core.List.{reverse_aux}
use underpass_runtime.Text.{Text, codes, text_eq, has_prefix, split, join}

abbrev pub slash : ℕ
slash = b'/'

abbrev pub dot : Text
dot = codes "."

abbrev pub dot_dot : Text
dot_dot = codes ".."

-- a segment ".." drops the last plain segment; above the top of a relative path it is kept
unfoldable pub parent_of : Bool → List Text → List Text
parent_of rooted [] = if rooted then [] else dot_dot ∷ []
parent_of rooted (top ∷ rest) = if text_eq top dot_dot then dot_dot ∷ top ∷ rest else rest

unfoldable pub clean_step : Bool → List Text → Text → List Text
clean_step rooted stack w =
    if is_empty w
    then stack
    else if text_eq w dot
    then stack
    else if text_eq w dot_dot
    then parent_of rooted stack
    else w ∷ stack

unfoldable pub clean_stack : Bool → List Text → List Text → List Text
clean_stack rooted stack [] = stack
clean_stack rooted stack (w ∷ ws) = clean_stack rooted (clean_step rooted stack w) ws

unfoldable pub is_rooted : Text → Bool
is_rooted s = has_prefix s (codes "/")

-- the segments that are left of a path
unfoldable pub segments : Text → List Text
segments s = reverse_aux (clean_stack (is_rooted s) [] (split slash s)) []

unfoldable pub render : Bool → List Text → Text
render true ws = slash ∷ join slash ws
render false [] = dot
render false (w ∷ ws) = join slash (w ∷ ws)

unfoldable pub clean : Text → Text
clean s = render (is_rooted s) (segments s)

-- filepath.Join of two elements: empty leading elements are skipped
unfoldable pub join_path : Text → Text → Text
join_path [] [] = []
join_path [] (c ∷ b) = clean (c ∷ b)
join_path (c ∷ a) b = clean ((c ∷ a) ++ (slash ∷ b))

-- filepath.Join of three elements
unfoldable pub join_three : Text → Text → Text → Text
join_three [] b c = join_path b c
join_three (x ∷ a) b c = clean ((x ∷ a) ++ (slash ∷ (b ++ (slash ∷ c))))

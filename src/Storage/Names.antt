-- ===== src/Storage/Names.antt =====
-- internal/adapters/storage/local_artifacts.go: the names of files, and what they say of artifacts.
use underpass_runtime.Base.{
  ℕ, ◌≡◌, refl, ap, ◌∙◌, ◌⊎◌, inl, inr, Bool, true, false, ◌&&◌, not, Option, none, some, List, [],
  ◌∷◌, ◌++◌, is_empty, any, All, ◌==◌, Bool-cases, arith, if◌then◌else◌,
}
use underpass_runtime.Text.{Text, codes, text_eq, trim_space, has_prefix, contains}
use underpass_runtime.Text.Laws.{eq_of_text_eq, has_prefix_rest}
use underpass_runtime.Text.FilePath.{clean}
use underpass_runtime.Domain.{wrapped, Artifact}
use underpass_runtime.Service.Ports.{Answer, answered, failed_with}
use underpass_runtime.Service.Reading.{find_artifact}
use underpass_runtime.Storage.Artifacts.{
  Entry, Disk, LocalArtifactStore, without_double_dots, underscored, sanitize_filename, stored_name,
  base_name, artifact_id_of, file_name_of, split_dash, listed_artifact, list_entries, read,
}

-- The file of an artifact that Save has written.
abbrev pub IsSavedFile : Entry → Type 0
IsSavedFile entry =
    (hex : Text) × (name : Text) × (entry.name ≡ file_name_of (artifact_id_of hex) name)

split_dash-saved :
    (hex name : Text)
    → split_dash (file_name_of (artifact_id_of hex) name)
      ≡ (codes "artifact", some (hex ++ (b'-' ∷ name)))
unfolding split_dash file_name_of artifact_id_of
split_dash-saved hex name = refl

listed_id :
    (dir : Text) (entry : Entry)
    → IsSavedFile entry
    → (listed_artifact dir entry).id ≡ codes "artifact"
unfolding listed_artifact
listed_id dir entry (hex, name, e) =
    rw e (ap (λ (q : Text × Option Text). q.0) (split_dash-saved hex name))

module _ (hex : Text) where
  other_id : (id : Text) → id ≡ codes "artifact" → text_eq id (artifact_id_of hex) ≡ false
  unfolding text_eq artifact_id_of
  other_id id e = rw e refl

  find_behind :
      (x : Artifact) (xs : List Artifact)
      → x.id ≡ codes "artifact"
      → find_artifact xs (artifact_id_of hex) ≡ none
      → find_artifact (x ∷ xs) (artifact_id_of hex) ≡ none
  unfolding find_artifact
  find_behind x xs e h = rw (other_id x.id e) h

skipped_or_kept :
    (P : List Artifact → Type 0) (b : Bool) (xs ys : List Artifact)
    → P xs
    → P ys
    → P (if b then xs else ys)
skipped_or_kept P true xs ys h k = h
skipped_or_kept P false xs ys h k = k

-- List does not show an artifact under the id that Save gave it: among the artifacts that it makes
-- of files of saved artifacts, no id of a saved artifact is found.
pub find-list_entries :
    (dir hex : Text) (entries : List Entry)
    → All IsSavedFile entries
    → find_artifact (list_entries dir entries) (artifact_id_of hex) ≡ none
unfolding list_entries find_artifact
find-list_entries dir hex [] h = refl
find-list_entries dir hex (entry ∷ entries) (saved, h) =
    let rest = find-list_entries dir hex entries h in
    skipped_or_kept (λ l. find_artifact l (artifact_id_of hex) ≡ none) entry.is_dir _ _ rest
      (find_behind hex (listed_artifact dir entry) _ (listed_id dir entry saved) rest)

unfoldable pub has_char : ℕ → Text → Bool
has_char c s = any (λ d. d == c) s

-- One segment of a path: no separator, and no step to the parent.
pub record IsSegment (name : Text) : Type 0 where
  pub no_slash : has_char b'/' name ≡ false
  pub no_backslash : has_char b'\\' name ≡ false
  pub no_parent : contains name (codes "..") ≡ false

&&-false : (a b : Bool) → b ≡ false → (a && b) ≡ false
&&-false a b h = ground arith

has_char-underscored :
    (c : ℕ) (s : Text) → (b'_' == c) ≡ false → has_char c (underscored c s) ≡ false
unfolding has_char any underscored
has_char-underscored c [] h = refl
has_char-underscored c (d ∷ s) h = ground (arith, has_char-underscored c s h)

has_char-underscored_other :
    (c e : ℕ) (s : Text)
    → (b'_' == e) ≡ false
    → has_char e s ≡ false
    → has_char e (underscored c s) ≡ false
unfolding has_char any underscored
has_char-underscored_other c e [] h k = refl
has_char-underscored_other c e (d ∷ s) h k = ground (arith, has_char-underscored_other c e s h)

contains-underscored :
    (c : ℕ) (s : Text)
    → (b'.' == c) ≡ false
    → contains (underscored c s) (codes "..") ≡ contains s (codes "..")
unfolding contains has_prefix underscored
contains-underscored c [] h = refl
contains-underscored c (d ∷ []) h = ground arith
contains-underscored c (d ∷ e ∷ s) h = ground (arith, contains-underscored c (e ∷ s) h)

without_double_dots_head :
    (d : ℕ) (s : Text) → (d == b'.') ≡ false → (t : Text) × (without_double_dots (d ∷ s) ≡ d ∷ t)
unfolding without_double_dots
without_double_dots_head d [] h = ([], refl)
without_double_dots_head d (e ∷ s) h = (without_double_dots (e ∷ s), rw h refl)

contains_behind :
    (c d : ℕ) (u t : Text)
    → u ≡ d ∷ t
    → (d == b'.') ≡ false
    → contains (c ∷ u) (codes "..") ≡ contains u (codes "..")
unfolding contains has_prefix
contains_behind c d u t e h = rw e (ground arith)

contains_other :
    (c : ℕ) (u : Text)
    → (c == b'.') ≡ false
    → contains (c ∷ u) (codes "..") ≡ contains u (codes "..")
unfolding contains has_prefix
contains_other c u h = ground arith

contains-without_double_dots : (s : Text) → contains (without_double_dots s) (codes "..") ≡ false
unfolding without_double_dots contains has_prefix
contains-without_double_dots [] = refl
contains-without_double_dots (c ∷ []) = ground arith
contains-without_double_dots (c ∷ d ∷ s) = elim (Bool-cases (d == b'.')) [
  | inr other ↦
      let (t, e) = without_double_dots_head d s other in
      rw (&&-false (c == b'.') (d == b'.') other) (
        contains_behind c d (without_double_dots (d ∷ s)) t e other
        ∙ contains-without_double_dots (d ∷ s))
  | inl dot ↦ elim (Bool-cases (c == b'.')) [
    | inl both ↦ rw (both, dot) (contains-without_double_dots s)
    | inr other ↦ rw other (
        contains_other c (without_double_dots (d ∷ s)) other ∙ contains-without_double_dots (d ∷ s))
  ]
]

sanitize_filename-IsSegment :
    (name : Text) → is_empty (trim_space name) ≡ false → IsSegment (sanitize_filename name)
unfolding sanitize_filename
sanitize_filename-IsSegment name filled =
    let plain_name = without_double_dots (base_name (trim_space name)) in
    rw filled (record {
      no_slash =
          has_char-underscored_other b'\\' b'/' (underscored b'/' plain_name) refl
            (has_char-underscored b'/' plain_name refl);
      no_backslash = has_char-underscored b'\\' (underscored b'/' plain_name) refl;
      no_parent =
          contains-underscored b'\\' (underscored b'/' plain_name) refl
          ∙ contains-underscored b'/' plain_name refl
          ∙ contains-without_double_dots (base_name (trim_space name));
    })

default-IsSegment : IsSegment (codes "artifact.bin")
unfolding has_char any contains has_prefix
default-IsSegment = record { no_slash = refl; no_backslash = refl; no_parent = refl }

empty_name : (name : Text) → is_empty (trim_space name) ≡ true → sanitize_filename name ≡ []
unfolding sanitize_filename
empty_name name h = rw h refl

chosen : (b : Bool) (x y : Text) → IsSegment x → IsSegment y → IsSegment (if b then x else y)
chosen true x y h k = h
chosen false x y h k = k

-- Whatever a tool calls an artifact, the name of its file is one segment: it has no slash, no
-- backslash and no step to the parent directory.
pub stored_name-IsSegment : (name : Text) → IsSegment (stored_name name)
unfolding stored_name
stored_name-IsSegment name = elim (Bool-cases (is_empty (trim_space name))) [
  | inl blank ↦ rw (empty_name name blank) default-IsSegment
  | inr filled ↦
      chosen (is_empty (sanitize_filename name)) _ _ default-IsSegment
        (sanitize_filename-IsSegment name filled)
]

-- The path is the base, or below it.
abbrev pub IsBelow : Text → Text → Type 0
IsBelow base path = (path ≡ base) ⊎ ((r : Text) × (path ≡ (base ++ codes "/") ++ r))

below :
    (base path : Text)
    → (not (text_eq path base) && not (has_prefix path (base ++ codes "/"))) ≡ false
    → IsBelow base path
below base path h = elim (Bool-cases (text_eq path base)) [
  | inl same ↦ inl (eq_of_text_eq path base same)
  | inr other ↦ inr (has_prefix_rest path (base ++ codes "/") (ground arith))
]

-- What Read answers are the contents of the cleaned path, and that path is the cleaned base path or
-- below it.
pub read-IsBelow :
    {D : Type 0} (d : Disk D) (s : LocalArtifactStore) (disk : D) (path contents : Text)
    → read d s disk path ≡ answered contents
    → IsBelow (clean s.base_path) (clean path) × (d.read_file disk (clean path) ≡ answered contents)
unfolding read
read-IsBelow d s disk path contents h =
    elim (Bool-cases (
      not (text_eq (clean path) (clean s.base_path))
      && not (has_prefix (clean path) (clean s.base_path ++ codes "/")))) [
        | inl outside ↦ absurd (let g = rw outside at h in cc)
        | inr inside ↦
            (below (clean s.base_path) (clean path) inside, contents_of _ contents (rw inside at h))
      ]
  where
    contents_of :
        (a : Answer Text) (t : Text)
        → (elim a [
          | failed_with message ↦ failed_with (wrapped "read artifact" message)
          | answered u ↦ answered u
        ])
          ≡ answered t
        → a ≡ answered t
    contents_of (answered u) t g = g
    contents_of (failed_with message) t g = absurd (cc)

-- ===== src/Edit/Policy.antt =====
-- tools/edit_policy.py: the limits of an edit, and the paths and lines of a patch.
pub mod Paths
pub mod Sides
use pyfix_agent.Base.{
  ℕ, String, ◌<>◌, Bool, true, false, ◌&&◌, ◌||◌, not, Option, none, some, List, [], ◌∷◌, map,
  length, dedupe, any, contains, nonempty, keep, truthy, show, ◌==◌, string_eq, if◌then◌else◌,
  starts_with, starts_any, drop_text, splitlines, forward_slashes, after_prefix, word_of,
}
use pyfix_agent.Base.Int.{ℤ, exceeds, show_int}
use pyfix_agent.Base.Paths.{strip_slashes, rstrip_slashes, path_parts, path_suffix, is_absolute}

pub record EditPolicy : Type 0 where
  pub allowed_paths : List String
  pub forbidden_path_parts : List String
  pub allowed_suffixes : List String
  pub max_files : ℤ
  pub max_changed_lines : ℤ

-- `value[2:]` where the value begins with one of git's prefixes
abbrev pub without_side : String → String
without_side value = if starts_any value ("a/" ∷ "b/" ∷ []) then drop_text 2 value else value

unfoldable pub normalize_path : String → String
normalize_path path = strip_slashes (without_side (forward_slashes path))

unfoldable pub normalize_prefix : String → String
unfolding normalize_path
normalize_prefix path = rstrip_slashes (normalize_path path)

abbrev pub is_under : String → String → Bool
is_under path prefix = path == prefix || starts_with path (prefix <> "/")

-- One round of the loop of `validate_paths`.
unfoldable pub path_error : EditPolicy → List String → String → Option String
path_error p allowed path =
    let parts = path_parts path in
    if is_absolute path || contains ".." parts || contains ".git" parts
    then some ("edit path escapes workspace or is unsafe: " <> path)
    else if not (contains (path_suffix parts) p.allowed_suffixes)
    then some ("edit target must be a .py file or another allowed suffix: " <> path)
    else if any (λ part. contains part p.forbidden_path_parts) parts
    then some ("edit target is under a forbidden path: " <> path)
    else if nonempty allowed && not (any (is_under path) allowed)
    then some ("edit target is outside allowed paths: " <> path)
    else none

unfoldable pub first_path_error : EditPolicy → List String → List String → Option String
first_path_error p allowed [] = none
first_path_error p allowed (path ∷ paths) =
    let rest = first_path_error p allowed paths in
    elim (path_error p allowed path) [ none ↦ rest | some e ↦ some e ]

abbrev pub allowed_of : EditPolicy → List String
allowed_of p = map normalize_prefix p.allowed_paths

abbrev pub normalized : List String → List String
normalized paths = dedupe (map normalize_path paths)

unfoldable pub validate_paths : EditPolicy → List String → Option String
validate_paths p paths =
    let files = length (normalized paths) in
    if exceeds files p.max_files
    then some ("edit modifies " <> show files <> " files; maximum is " <> show_int p.max_files)
    else first_path_error p (allowed_of p) (normalized paths)

unfoldable pub validate_changed_lines : EditPolicy → ℕ → Option String
validate_changed_lines p changed_lines =
    if exceeds changed_lines p.max_changed_lines
    then some (
        "edit changes about "
        <> show changed_lines
        <> " lines; maximum is "
        <> show_int p.max_changed_lines)
    else none

infixl 5 ◌>>=◌
abbrev ◌>>=◌ : {A B : Type 0} → Option A → (A → Option B) → Option B
none >>= k = none
some a >>= k = k a

-- `^diff --git (\S+) (\S+)$`, its second group
unfoldable pub second_path : String → Option String
second_path line = do
  rest ← after_prefix "diff --git " line
  let old = word_of rest
  behind ← after_prefix old rest
  new ← after_prefix " " behind
  if truthy old && truthy new && word_of new == new then some new else none

abbrev pub without_b : String → String
without_b path = if starts_with path "b/" then drop_text 2 path else path

unfoldable pub header_paths : List String → List String
unfolding normalize_path
header_paths [] = []
header_paths (line ∷ lines) =
    let rest = header_paths lines in
    elim (second_path line) [ none ↦ rest | some path ↦ normalize_path (without_b path) ∷ rest ]

unfoldable pub paths_from_patch : String → List String
paths_from_patch patch = dedupe (header_paths (splitlines patch))

abbrev counts_as_changed : String → Bool
counts_as_changed line =
    starts_any line ("+" ∷ "-" ∷ []) && not (starts_any line ("+++" ∷ "---" ∷ []))

unfoldable pub changed_lines_from_patch : String → ℕ
changed_lines_from_patch patch = length (keep counts_as_changed (splitlines patch))

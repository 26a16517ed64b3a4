-- ===== src/Edit/PatchCheck.antt =====
-- tools/patch_tools.py, the checks of a patch: `validate_patch_format`, and the error of the policy.
pub mod Safe
use pyfix_agent.Base.{
  ℕ, String, ◌<>◌, Bool, true, false, ◌&&◌, ◌||◌, not, Option, none, some, List, [], ◌∷◌, ◌++◌, any,
  contains, string_eq, ◌==◌, in_text, lower, strip, splitlines, split_words, starts_with,
  starts_any, drop_text, truthy, if◌then◌else◌,
}
use pyfix_agent.Base.Paths.{path_parts, is_absolute}
use pyfix_agent.Edit.Policy.{
  EditPolicy, validate_paths, validate_changed_lines, paths_from_patch, changed_lines_from_patch,
}
use pyfix_agent.Edit.PatchText.{normalize_git_diff_headers, is_null_path, header_path}

-- `ValidationResult`: none for a success, else the code and the error.
abbrev pub ValidationResult : Type 0
ValidationResult = Option (String × String)

abbrev pub invalid : String → String → ValidationResult
invalid code m = some (code, m)

abbrev pub then_check : ValidationResult → ValidationResult → ValidationResult
then_check none next = next
then_check (some e) next = some e

abbrev pub relative_of : String → String
relative_of path = if starts_any path ("a/" ∷ "b/" ∷ []) then drop_text 2 path else path

abbrev pub is_unsafe : String → Bool
is_unsafe path =
    let relative = relative_of path in
    is_absolute relative
    || contains ".." (path_parts relative)
    || contains ".git" (path_parts relative)

unfoldable pub validate_diff_path : String → ValidationResult
validate_diff_path path =
    if is_null_path path
    then invalid "UNSUPPORTED_CREATE_DELETE" "create/delete patches are not supported"
    else if is_unsafe path
    then invalid "UNSAFE_PATH" ("unsafe patch path: " <> path)
    else none

abbrev pub natural_prefixes : List String
natural_prefixes =
    "here is the patch" ∷ "here's the patch" ∷ "below is the patch" ∷ "the patch is" ∷ "下面是补丁" ∷ []

abbrev first_line : List String → String
first_line [] = ""
first_line (line ∷ lines) = line

unfoldable pub has_natural_language_prefix : String → Bool
has_natural_language_prefix text =
    starts_any (lower (strip (first_line (splitlines text)))) natural_prefixes

-- The lines up to the next header of git.
unfoldable pub body_of : List String → List String
body_of [] = []
body_of (line ∷ lines) =
    let more = body_of lines in if starts_with line "diff --git " then [] else line ∷ more

-- The blocks of a patch: each begins with git's header and ends before the next one. Lines before
-- the first header belong to no block.
unfoldable pub blocks : List String → List (String × List String)
unfolding body_of
blocks [] = []
blocks (line ∷ lines) =
    let rest = blocks lines in
    if starts_with line "diff --git " then (line, body_of lines) ∷ rest else rest

-- `header_parts[2:4]`
abbrev header_pair : List String → Option (String × String)
header_pair (d ∷ (g ∷ (old ∷ (new ∷ rest)))) = some (old, new)
header_pair other = none

abbrev pub is_file_line : String → Bool
is_file_line line = starts_any line ("--- " ∷ "+++ " ∷ [])

-- The loop over the lines of a block; git's header itself is no such line.
unfoldable pub validate_file_lines : List String → ValidationResult
validate_file_lines [] = none
validate_file_lines (line ∷ lines) =
    let rest = validate_file_lines lines in
    if is_file_line line then then_check (validate_diff_path (header_path line)) rest else rest

unfoldable pub validate_block : String → List String → ValidationResult
validate_block header body = elim (header_pair (split_words header)) [
  | none ↦ invalid "MISSING_DIFF_GIT_HEADER" ("invalid diff --git header: " <> header)
  | some (old, new) ↦ then_check (validate_diff_path old) (
      then_check (validate_diff_path new) (
        if not (any (λ line. starts_with line "--- ") body)
          || not (any (λ line. starts_with line "+++ ") body)
        then invalid "MISSING_FILE_HEADER" ("missing ---/+++ file header after " <> header)
        else if not (any (λ line. starts_with line "@@") body)
        then invalid "MISSING_HUNK_HEADER" ("missing hunk header after " <> header)
        else validate_file_lines body))
]

unfoldable pub validate_blocks : List (String × List String) → ValidationResult
validate_blocks [] = none
validate_blocks ((header, body) ∷ more) =
    then_check (validate_block header body) (validate_blocks more)

unfoldable pub validate_patch_format : String → ValidationResult
unfolding validate_blocks
validate_patch_format patch =
    let text = strip patch in
    let normalized = normalize_git_diff_headers text in
    if not (truthy text)
    then invalid "EMPTY_OUTPUT" "patch is empty"
    else if in_text "```" text
    then invalid "MARKDOWN_FENCE_FOUND" "patch still contains Markdown code fence"
    else if has_natural_language_prefix text
    then invalid "NO_PATCH_FOUND" "patch appears to contain natural-language prefix"
    else if in_text "/dev/null" text
    then invalid "UNSUPPORTED_CREATE_DELETE" "create/delete patches are not supported"
    else if not (in_text "diff --git " normalized)
    then invalid "MISSING_DIFF_GIT_HEADER" "patch does not contain diff --git header"
    else validate_blocks (blocks (splitlines normalized))

-- `_validate_edit_policy`, with a policy
unfoldable pub validate_edit_policy : String → EditPolicy → Option String
validate_edit_policy patch policy = elim (validate_paths policy (paths_from_patch patch)) [
  | some m ↦ some m
  | none ↦ validate_changed_lines policy (changed_lines_from_patch patch)
]

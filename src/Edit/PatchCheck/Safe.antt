-- ===== src/Edit/PatchCheck/Safe.antt =====
-- The paths of a patch that `validate_patch_format` of tools/patch_tools.py accepts.
use pyfix_agent.Base.{String, ◌≡◌, true, false, List, [], ◌∷◌, any, string_eq, starts_with}
use pyfix_agent.Edit.PatchText.{is_null_path, header_path}
use pyfix_agent.Edit.PatchCheck.{is_unsafe, is_file_line}

-- Every file line of a block names a path that stays in the workspace and out of git's directory, and
-- neither creates nor deletes a file.
abbrev pub SafeLines : List String → Type 0
SafeLines [] = Unit
SafeLines (line ∷ lines) =
    (is_file_line line ≡ true
      → (is_unsafe (header_path line) ≡ false) × (is_null_path (header_path line) ≡ false))
    × SafeLines lines

-- A block with both file lines and a hunk, all of them safe.
abbrev pub SafeBlocks : List (String × List String) → Type 0
SafeBlocks [] = Unit
SafeBlocks ((header, body) ∷ more) =
    (any (λ line. starts_with line "--- ") body ≡ true)
    × (any (λ line. starts_with line "+++ ") body ≡ true)
    × (any (λ line. starts_with line "@@") body ≡ true)
    × SafeLines body
    × SafeBlocks more

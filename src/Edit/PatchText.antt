-- ===== src/Edit/PatchText.antt =====
-- tools/patch_tools.py, the text of a patch: from the model's answer to a patch with git's headers.
pub mod Headers
use Prim.Native.Char.{code}
use pyfix_agent.Base.{
  ℕ, String, ◌<>◌, Bool, true, false, ◌&&◌, not, Option, none, some, List, [], ◌∷◌, ◌==◌, nat_eq,
  string_eq, join, strip, splitlines, starts_with, starts_any, take_text, drop_text, truthy,
  if◌then◌else◌,
}
use pyfix_agent.Base.Outcome.{Attempted, done, failed}
use pyfix_agent.Base.Json.{Json, null, boolean, integer, float, text, array, object, Members, get}
use pyfix_agent.Edit.Fences.{strip_code_fence}

-- Python's `json` decoder: the end of a value at the front of a text, and a whole text's value.
pub record JsonDecoder : Type 0 where
  pub raw_decode : String → Option ℕ
  pub loads : String → Attempted Json

module _ (J : JsonDecoder) where
  -- `_extract_first_json_object`
  unfoldable pub extract_first_json_object : String → Option String
  extract_first_json_object String.[] = none
  extract_first_json_object (String.◌∷◌ c s) =
      let later = extract_first_json_object s in
      if code c == 123
      then elim (J.raw_decode (String.◌∷◌ c s)) [
        | none ↦ later
        | some end ↦ some (take_text end (String.◌∷◌ c s))
      ]
      else later

-- The prefixes of `_looks_like_patch_line`
abbrev pub patch_line_prefixes : List String
patch_line_prefixes =
    "diff --git " ∷ "index " ∷ "new file mode " ∷ "deleted file mode " ∷ "old mode " ∷ "new mode "
    ∷ "similarity index " ∷ "rename from " ∷ "rename to " ∷ "--- " ∷ "+++ " ∷ "@@" ∷ " " ∷ "+" ∷ "-"
    ∷ "\\" ∷ []

-- `_trim_trailing_non_patch_lines`
unfoldable pub trim_trailing_non_patch_lines : List String → List String
trim_trailing_non_patch_lines [] = []
trim_trailing_non_patch_lines (line ∷ lines) = elim (trim_trailing_non_patch_lines lines) [
  | [] ↦ if starts_any line patch_line_prefixes then line ∷ [] else []
  | next ∷ rest ↦ line ∷ (next ∷ rest)
]

-- The lines from the first one that begins a patch.
unfoldable pub from_patch_start : List String → Option (List String)
from_patch_start [] = none
from_patch_start (line ∷ lines) =
    let later = from_patch_start lines in
    if starts_any line ("diff --git " ∷ "--- a/" ∷ []) then some (line ∷ lines) else later

unfoldable pub extract_patch_text : String → String
unfolding trim_trailing_non_patch_lines from_patch_start
extract_patch_text raw =
    let lines = splitlines (strip_code_fence (strip raw)) in
    elim (from_patch_start lines) [
      | none ↦ strip (join "\n" lines)
      | some patch_lines ↦ strip (join "\n" (trim_trailing_non_patch_lines patch_lines))
    ]

-- The value of a field, if it is a text with something in it.
abbrev pub patch_field : Json → Option String
patch_field (text s) = if truthy (strip s) then some s else none
patch_field other = none

abbrev pub first_of : List (Option String) → Option String
first_of [] = none
first_of (none ∷ rest) = first_of rest
first_of (some s ∷ rest) = some s

abbrev pub patch_of_json : Attempted Json → Option String
patch_of_json (done (object ms)) = first_of (
    patch_field (get "patch" ms)
    ∷ patch_field (get "cleaned_patch" ms)
    ∷ patch_field (get "raw_model_output" ms)
    ∷ [])
patch_of_json other = none

abbrev pub file_header : String → String → Bool
file_header line next = starts_with line "--- " && starts_with next "+++ "

-- The path of a `--- ` or `+++ ` line
abbrev pub header_path : String → String
header_path line = strip (drop_text 4 line)

abbrev pub expected_header : String → String → String
expected_header line next = "diff --git " <> header_path line <> " " <> header_path next

abbrev pub is_null_path : String → Bool
is_null_path path = path == "/dev/null"

abbrev pub creates_or_deletes : String → String → Bool
creates_or_deletes line next = elim (is_null_path (header_path line)) [
  | true ↦ true
  | false ↦ is_null_path (header_path next)
]

abbrev pub is_active : Option String → String → Bool
is_active none expected = false
is_active (some header) expected = header == expected

-- What the loop of `normalize_git_diff_headers` does at a line and the one behind it.
pub data HeaderStep : Type 0 where
  git_header null_file file_lines other_line : HeaderStep

unfoldable pub header_step : String → String → HeaderStep
header_step line next =
    if starts_with line "diff --git "
    then HeaderStep.git_header
    else if file_header line next
    then (if creates_or_deletes line next then HeaderStep.null_file else HeaderStep.file_lines)
    else HeaderStep.other_line

-- The loop, with the header that is active.
unfoldable pub normalize_lines : Option String → List String → List String
normalize_lines active [] = []
normalize_lines active (line ∷ []) = line ∷ []
normalize_lines active (line ∷ (next ∷ lines)) = elim (header_step line next) [
  | git_header ↦ line ∷ normalize_lines (some line) (next ∷ lines)
  | null_file ↦ line ∷ (next ∷ normalize_lines active lines)
  | file_lines ↦
      let rest = line ∷ (next ∷ normalize_lines (some (expected_header line next)) lines) in
      if is_active active (expected_header line next)
      then rest
      else expected_header line next ∷ rest
  | other_line ↦ line ∷ normalize_lines active (next ∷ lines)
]

unfoldable pub normalize_git_diff_headers : String → String
normalize_git_diff_headers patch =
    strip (join "\n" (normalize_lines none (splitlines (strip patch))))

-- `_ensure_trailing_newline`
unfoldable pub ensure_trailing_newline : String → String
ensure_trailing_newline patch =
    let stripped = strip patch in if truthy stripped then stripped <> "\n" else ""

module _ (J : JsonDecoder) where
  abbrev pub answer_of : String → Option String → String
  answer_of answer none = extract_patch_text answer
  answer_of answer (some json_text) = elim (patch_of_json (J.loads json_text)) [
    | none ↦ extract_patch_text answer
    | some value ↦ extract_patch_text value
  ]

  unfoldable pub clean_model_output : String → String
  clean_model_output raw =
      let answer = strip_code_fence (strip raw) in
      answer_of answer (extract_first_json_object J answer)

  unfoldable pub clean_patch_text : String → String
  clean_patch_text raw =
      ensure_trailing_newline (normalize_git_diff_headers (clean_model_output raw))

-- ===== src/Edit/Replacement.antt =====
-- tools/replacement_tools.py, from the model's answer to a list of edits.
pub mod Wellformed
use Prim.Native.Char.{code}
use pyfix_agent.Base.{
  ℕ, suc, String, ◌<>◌, Bool, true, false, ◌&&◌, Option, none, some, List, [], ◌∷◌, keep, map, join,
  show, nonempty, strip, starts_with, ends_with, ◌==◌, string_eq, nat_eq, if◌then◌else◌,
}
use pyfix_agent.Base.Int.{positive_line, ℤ, pos, negsuc}
use pyfix_agent.Base.Outcome.{Attempted, done, failed}
use pyfix_agent.Base.Attempts.{◌>>=◌, ◌>>◌, require}
use pyfix_agent.Base.Json.{
  Json, null, boolean, integer, float, text, array, object, Members, elements, lookup, get, int_of,
  is_null,
}
use pyfix_agent.Core.Contracts.{ReplacementEdit}
use pyfix_agent.Edit.Fences.{strip_code_fence}

abbrev has_field : Members → String → Bool
has_field ms field = elim (lookup field ms) [ none ↦ false | some v ↦ true ]

abbrev missing_fields : Members → List String
missing_fields ms =
    keep (λ field. if has_field ms field then false else true) ("path" ∷ "old" ∷ "new" ∷ [])

abbrev item_text : ℕ → String → String
item_text index m = "replacement item " <> show index <> " " <> m

unfoldable pub text_field : ℕ → Members → String → Attempted String
text_field index ms field = elim (get field ms) [
  | text s ↦ done s
  | _ ↦ failed (item_text index ("field " <> field <> " must be a string"))
]

-- `item.get("start_line")`: none, or a positive integer
unfoldable pub start_line_of : ℕ → Members → Attempted (Option ℕ)
start_line_of index ms =
    if is_null (get "start_line" ms)
    then done none
    else elim (positive_line (int_of (get "start_line" ms))) [
      | none ↦ failed (item_text index "field start_line must be a positive integer")
      | some n ↦ done (some n)
    ]

-- The tests on the three texts of an item, and its line.
unfoldable pub build_edit : ℕ → Members → String → String → String → Attempted ReplacementEdit
build_edit index ms path old new =
    if path == ""
    then failed (item_text index "field path must not be empty")
    else if old == ""
    then failed (item_text index "field old must not be empty")
    else if old == new
    then failed (item_text index "old and new must differ")
    else (start_line_of index ms >>= λ start_line.
        done (record { path = path; old = old; new = new; start_line = start_line }))

unfoldable pub parse_members : ℕ → Members → Attempted ReplacementEdit
parse_members index ms =
    if nonempty (missing_fields ms)
    then failed (item_text index ("is missing fields: " <> join ", " (missing_fields ms)))
    else do
      path ← text_field index ms "path"
      old ← text_field index ms "old"
      new ← text_field index ms "new"
      build_edit index ms path old new

unfoldable pub parse_item : ℕ → Json → Attempted ReplacementEdit
parse_item index (object ms) = parse_members index ms
parse_item index other = failed (item_text index "must be an object")

-- The loop, from item `index` on.
unfoldable pub parse_items : ℕ → List Json → Attempted (List ReplacementEdit)
parse_items index [] = done []
parse_items index (item ∷ items) =
    let rest = parse_items (suc index) items in
    do edit ← parse_item index item; edits ← rest; done (edit ∷ edits)

unfoldable pub edits_of_json : Json → Attempted (List ReplacementEdit)
edits_of_json (array vs) = parse_items 0 (elements vs)
edits_of_json other = failed "replacement JSON must be a list"

-- The text from the first `[` on.
unfoldable pub from_bracket : String → Option String
from_bracket String.[] = none
from_bracket (String.◌∷◌ c s) =
    let later = from_bracket s in if code c == 91 then some (String.◌∷◌ c s) else later

-- The text up to the last `]`, with it.
unfoldable pub to_bracket : String → Option String
to_bracket String.[] = none
to_bracket (String.◌∷◌ c s) = elim (to_bracket s) [
  | some rest ↦ some (String.◌∷◌ c rest)
  | none ↦ if code c == 93 then some (String.◌∷◌ c String.[]) else none
]

-- `_extract_json_array`
unfoldable pub extract_json_array : String → String
unfolding from_bracket to_bracket
extract_json_array s =
    if starts_with (strip s) "[" && ends_with (strip s) "]"
    then strip s
    else elim (from_bracket (strip s)) [
      | none ↦ strip s
      | some rest ↦ elim (to_bracket rest) [ none ↦ strip s | some items ↦ strip items ]
    ]

-- The arguments give `json.loads`, and its failure's text.
unfoldable pub parse_replacements :
    (String → Attempted Json) → String → Attempted (List ReplacementEdit)
parse_replacements loads raw_output =
    elim (loads (extract_json_array (strip_code_fence raw_output))) [
      | failed m ↦ failed ("Invalid replacement JSON: " <> m)
      | done value ↦ edits_of_json value
    ]

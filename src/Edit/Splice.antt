-- ===== src/Edit/Splice.antt =====
-- tools/replacement_tools.py, one edit on the text of one file: `_find_occurrences`,
-- `_nearest_match_by_line`, and the choice of a match in `apply_replacements`. The old text of an
-- edit is not empty, as the parser makes sure.
pub mod Matches
pub mod Spliced
use Prim.Native.Char.{code}
use pyfix_agent.Base.{
  ℕ, zero, suc, ◌+◌, ◌-◌, min, String, ◌<>◌, Bool, true, false, Option, none, some, List, [], ◌∷◌,
  map, keep, leb, ◌==◌, nat_eq, if◌then◌else◌, text_length, take_text, drop_text,
}
use pyfix_agent.Base.Outcome.{Attempted, done, failed}
use pyfix_agent.Base.Search.{occurrences_from}
use pyfix_agent.Core.Contracts.{ReplacementEdit}

unfoldable pub find_occurrences : String → String → List ℕ
find_occurrences text needle = occurrences_from (suc (text_length text)) 0 needle text

-- `text.count("\n")`
unfoldable pub count_newlines : String → ℕ
count_newlines String.[] = 0
count_newlines (String.◌∷◌ c s) = if code c == 10 then suc (count_newlines s) else count_newlines s

-- `abs(a - b)`
abbrev pub distance : ℕ → ℕ → ℕ
distance a b = if leb a b then b - a else a - b

abbrev pub line_of : String → ℕ → ℕ
line_of text index = count_newlines (take_text index text) + 1

unfoldable pub least : ℕ → List ℕ → ℕ
least d [] = d
least d (x ∷ xs) = least (min d x) xs

abbrev only : List ℕ → Option ℕ
only [] = none
only (x ∷ []) = some x
only (x ∷ (y ∷ xs)) = none

-- The only match at the least distance.
abbrev pub closest : (ℕ → ℕ) → ℕ → List ℕ → Option ℕ
closest away m ms = only (keep (λ index. away index == least (away m) (map away ms)) (m ∷ ms))

unfoldable pub nearest_match_by_line : String → List ℕ → Option ℕ → Option ℕ
nearest_match_by_line text matches none = none
nearest_match_by_line text [] (some start_line) = none
nearest_match_by_line text (m ∷ ms) (some start_line) =
    closest (λ index. distance (line_of text index) start_line) m ms

-- `current[:index] + new + current[index + len(old):]`
unfoldable pub replace_at : String → ℕ → String → String → String
replace_at current index old new =
    take_text index current <> (new <> drop_text (index + text_length old) current)

abbrev pub at_match : String → ReplacementEdit → Option ℕ → Attempted String
at_match current e none =
    failed ("old text appears multiple times in " <> e.path <> "; start_line was ambiguous")
at_match current e (some index) = done (replace_at current index e.old e.new)

abbrev pub at_matches : String → ReplacementEdit → List ℕ → Attempted String
at_matches current e [] = failed ("old text was not found exactly once in " <> e.path)
at_matches current e (m ∷ []) = at_match current e (some m)
at_matches current e (m ∷ (n ∷ ms)) = elim e.start_line [
  | none ↦ failed (
      "old text appears multiple times in " <> e.path
      <> "; provide a more precise old fragment or include start_line")
  | some line ↦ at_match current e (nearest_match_by_line current (m ∷ (n ∷ ms)) (some line))
]

-- The new text of a file, or why the edit is refused.
unfoldable pub edit_text : String → ReplacementEdit → Attempted String
edit_text current e = at_matches current e (find_occurrences current e.old)

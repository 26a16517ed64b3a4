-- ===== src/Edit/Fences.antt =====
-- The Markdown code fence around a model's answer: `_strip_code_fence` of tools/replacement_tools.py
-- and `_strip_outer_code_fence` of tools/patch_tools.py.
use pyfix_agent.Base.{
  String, List, [], ◌∷◌, join, strip, splitlines, starts_with, ◌==◌, string_eq, if◌then◌else◌,
}

abbrev pub without_first_fence : List String → List String
without_first_fence [] = []
without_first_fence (line ∷ lines) = if starts_with (strip line) "```" then lines else line ∷ lines

-- `lines[:-1]` where the last line is a fence
unfoldable pub without_last_fence : List String → List String
without_last_fence [] = []
without_last_fence (line ∷ []) = if strip line == "```" then [] else line ∷ []
without_last_fence (line ∷ (next ∷ lines)) = line ∷ without_last_fence (next ∷ lines)

unfoldable pub strip_code_fence : String → String
unfolding without_last_fence
strip_code_fence raw =
    strip (join "\n" (without_last_fence (without_first_fence (splitlines (strip raw)))))

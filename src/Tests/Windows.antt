-- ===== src/Tests/Windows.antt =====
-- A window around two lines of a text of four.
use pyfix_agent.Base.{
  ℕ, ◌≤◌, ◌≡◌, refl, arith, String, true, List, [], ◌∷◌, contains, nat_eq, take_list, join,
}
use pyfix_agent.Context.Snippet.{code_window, smallest, greatest, drop_list}
use pyfix_agent.Context.Snippet.Window.{IsWindow, code_window-bounds}

abbrev more_lines : List String
more_lines = "b" ∷ "c" ∷ "d" ∷ []

code_window_test : code_window ("a" ∷ more_lines) (3 ∷ 4 ∷ []) 1 ≡ (2, 4, "b\nc\nd\n")
unfolding code_window smallest greatest drop_list take_list join
code_window_test = refl

code_window-bounds_example :
    (1 ≤ 2)
    × (4 ≤ 4)
    × ((u : ℕ) → contains u (3 ∷ 4 ∷ []) ≡ true → (2 ≤ u) × (u ≤ 4))
    × IsWindow ("a" ∷ more_lines) 2 4 "b\nc\nd\n"
unfolding code_window smallest greatest drop_list take_list join
code_window-bounds_example =
    code_window-bounds "a" more_lines 3 (4 ∷ []) 1
      (omega arith, omega arith, (omega arith, omega arith, tt))

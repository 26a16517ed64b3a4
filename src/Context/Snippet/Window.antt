-- ===== src/Context/Snippet/Window.antt =====
-- The window of context/snippet.py, against the lines that it is asked for.
use pyfix_agent.Base.{
  ℕ, zero, suc, ◌-◌, ◌+◌, ◌≤◌, min, max, ◌≡◌, refl, ap, ◌∙◌, arith, String, ◌<>◌, true, List, [],
  ◌∷◌, ◌++◌, contains, length, take_list, nat_eq, join, truthy, if◌then◌else◌,
}
use pyfix_agent.Context.Snippet.{
  greatest, smallest, drop_list, lines_between, ended_line, code_window,
}

-- Line numbers of a text of n lines.
abbrev pub AllWithin : ℕ → List ℕ → Type 0
AllWithin n [] = Unit
AllWithin n (t ∷ ts) = (1 ≤ t) × (t ≤ n) × AllWithin n ts

smallest-least : (d t : ℕ) (ts : List ℕ) → contains t (d ∷ ts) ≡ true → smallest d ts ≤ t
unfolding smallest
smallest-least d t [] h = ground arith
smallest-least d t (x ∷ xs) h =
    ground (arith, smallest-least (min d x) t xs, smallest-least (min d x) (min d x) xs)

greatest-most : (d t : ℕ) (ts : List ℕ) → contains t (d ∷ ts) ≡ true → t ≤ greatest d ts
unfolding greatest
greatest-most d t [] h = ground arith
greatest-most d t (x ∷ xs) h =
    ground (arith, greatest-most (max d x) t xs, greatest-most (max d x) (max d x) xs)

AllWithin-contains : (n t : ℕ) (ts : List ℕ) → AllWithin n ts → contains t ts ≡ true → t ≤ n
AllWithin-contains n t [] w h = absurd (cc)
AllWithin-contains n t (x ∷ xs) w h = ground (arith, w.0, w.1, AllWithin-contains n t xs w.2)

AllWithin-positive : (n t : ℕ) (ts : List ℕ) → AllWithin n ts → contains t ts ≡ true → 1 ≤ t
AllWithin-positive n t [] w h = absurd (cc)
AllWithin-positive n t (x ∷ xs) w h = ground (arith, w.0, w.1, AllWithin-positive n t xs w.2)

window_holds :
    (n u low high line_window : ℕ)
    → low ≤ u
    → u ≤ high
    → 1 ≤ u
    → u ≤ n
    → (max 1 (low - line_window) ≤ u) × (u ≤ min n (high + line_window))
window_holds n u low high line_window a b c d = (omega arith, omega arith)

length-take_list : (k : ℕ) (xs : List String) → k ≤ length xs → length (take_list k xs) ≡ k
unfolding take_list
length-take_list zero xs h = refl
length-take_list (suc k) [] h = absurd (omega arith)
length-take_list (suc k) (x ∷ xs) h = omega (arith, length-take_list k xs)

length-drop_list : (k : ℕ) (xs : List String) → length (drop_list k xs) ≡ length xs - k
unfolding drop_list
length-drop_list zero xs = omega arith
length-drop_list (suc k) [] = omega arith
length-drop_list (suc k) (x ∷ xs) = omega (arith, length-drop_list k xs)

length-lines_between :
    (start_line end_line : ℕ) (lines : List String)
    → 1 ≤ start_line
    → start_line ≤ end_line
    → end_line ≤ length lines
    → length (lines_between start_line end_line lines) + start_line ≡ end_line + 1
length-lines_between start_line end_line lines a b c =
    let rest = length-drop_list (start_line - 1) lines in
    omega (
      arith,
      rest,
      length-take_list (end_line - (start_line - 1)) (drop_list (start_line - 1) lines)
          (omega (arith, rest)),
    )

split_at : (k : ℕ) (xs : List String) → xs ≡ take_list k xs ++ drop_list k xs
unfolding take_list drop_list
split_at zero xs = refl
split_at (suc k) [] = refl
split_at (suc k) (x ∷ xs) = ap (λ ys. x ∷ ys) (split_at k xs)

-- These lines of a text, counted from 1, and the text of them, each with its line end.
pub record IsWindow (lines : List String) (start_line end_line : ℕ) (content : String)
    : Type 0 where
  pub before : List String
  pub window : List String
  pub after : List String
  pub split : lines ≡ before ++ (window ++ after)
  pub starts : length before + 1 ≡ start_line
  pub ends : length window + start_line ≡ end_line + 1
  pub text :
      content ≡ (if truthy (join "\n" window) then join "\n" window <> "\n" else join "\n" window)

lines_between-IsWindow :
    (start_line end_line : ℕ) (lines : List String)
    → 1 ≤ start_line
    → start_line ≤ end_line
    → end_line ≤ length lines
    → IsWindow lines start_line end_line
        (ended_line (join "\n" (lines_between start_line end_line lines)))
lines_between-IsWindow start_line end_line lines a b c =
    let rest = drop_list (start_line - 1) lines in
    let many = end_line - (start_line - 1) in
    record {
      before = take_list (start_line - 1) lines;
      window = take_list many rest;
      after = drop_list many rest;
      split =
          split_at (start_line - 1) lines
          ∙ ap (λ ys. take_list (start_line - 1) lines ++ ys) (split_at many rest);
      starts = omega (arith, length-take_list (start_line - 1) lines (omega arith));
      ends = length-lines_between start_line end_line lines a b c;
      text = refl;
    }

-- A window of a text around lines of the text begins at its first line or later and ends at its last
-- line or before, it has each of these lines in it, and its content is the lines of the text from its
-- first one to its last one, joined, and with a line end after the last unless it is empty.
pub code_window-bounds :
    (line : String) (lines : List String) (t : ℕ) (ts : List ℕ) (line_window : ℕ)
    → AllWithin (length (line ∷ lines)) (t ∷ ts)
    → let (start_line, end_line, content) = code_window (line ∷ lines) (t ∷ ts) line_window in
      (1 ≤ start_line)
      × (end_line ≤ length (line ∷ lines))
      × ((u : ℕ) → contains u (t ∷ ts) ≡ true → (start_line ≤ u) × (u ≤ end_line))
      × IsWindow (line ∷ lines) start_line end_line content
unfolding code_window
code_window-bounds line lines t ts line_window w =
    let n = length (line ∷ lines) in
    let start_line = max 1 (smallest t ts - line_window) in
    let end_line = min n (greatest t ts + line_window) in
    let inside : (u : ℕ) → contains u (t ∷ ts) ≡ true → (start_line ≤ u) × (u ≤ end_line) = λ u h.
      window_holds n u (smallest t ts) (greatest t ts) line_window (smallest-least t u ts h)
        (greatest-most t u ts h) (AllWithin-positive n u (t ∷ ts) w h)
        (AllWithin-contains n u (t ∷ ts) w h) in
    let here = inside t (ground arith) in
    let first : 1 ≤ start_line = omega arith in
    let last : end_line ≤ n = omega arith in
    (
      first,
      last,
      inside,
      lines_between-IsWindow start_line end_line (line ∷ lines) first
          (omega (arith, here.0, here.1)) last,
    )

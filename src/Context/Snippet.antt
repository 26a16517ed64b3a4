-- ===== src/Context/Snippet.antt =====
-- context/snippet.py: the paths of Python files in a workspace, and a window of the lines of one.
-- A line window is not negative, as the agent and the context plan make sure.
pub mod Window
use pyfix_agent.Base.{
  ℕ, zero, suc, ◌-◌, ◌+◌, min, max, String, ◌<>◌, Bool, true, false, ◌&&◌, ◌||◌, not, Option, none,
  some, List, [], ◌∷◌, ◌++◌, any, contains, length, take_list, join, truthy, splitlines,
  starts_with, forward_slashes, ◌==◌, string_eq, if◌then◌else◌,
}
use pyfix_agent.Base.Outcome.{Attempted, done, failed, Action, pure, branch, ◌>>=◌}
use pyfix_agent.Base.Paths.{path_parts, path_suffix, is_absolute, relative_to}

pub record Sources : Type 1 where
  pub World : Type 0
  pub resolve : List String → Action World (List String)
  -- `candidate.resolve()`, in the `try` that catches OSError and ValueError
  pub try_resolve : List String → Action World (Attempted (List String))
  pub exists : List String → Action World Bool
  pub is_file : List String → Action World Bool
  pub read_text : List String → Action World String
  -- `sorted(workspace.rglob("*.py"))`
  pub python_files : List String → Action World (List (List String))

abbrev pub ignored_dirs : List String
ignored_dirs =
    "__pycache__" ∷ ".pytest_cache" ∷ ".git" ∷ "outputs" ∷ ".mypy_cache" ∷ ".ruff_cache" ∷ []

-- `_is_ignored`
unfoldable pub is_ignored : List String → Bool
is_ignored relative = any (λ part. contains part ignored_dirs || starts_with part ".") relative

abbrev pub is_under_tests : List String → Bool
is_under_tests [] = false
is_under_tests (part ∷ parts) = part == "tests"

abbrev pub is_left_out : Bool → List String → Bool
is_left_out include_tests relative =
    is_ignored relative || (not include_tests && is_under_tests relative)

unfoldable pub greatest : ℕ → List ℕ → ℕ
greatest d [] = d
greatest d (x ∷ xs) = greatest (max d x) xs

unfoldable pub smallest : ℕ → List ℕ → ℕ
smallest d [] = d
smallest d (x ∷ xs) = smallest (min d x) xs

unfoldable pub drop_list : ℕ → List String → List String
drop_list zero xs = xs
drop_list (suc n) [] = []
drop_list (suc n) (x ∷ xs) = drop_list n xs

-- `lines[start_line - 1 : end_line]`
abbrev pub lines_between : ℕ → ℕ → List String → List String
lines_between start_line end_line lines =
    take_list (end_line - (start_line - 1)) (drop_list (start_line - 1) lines)

abbrev pub window_bounds : ℕ → List ℕ → ℕ → ℕ × ℕ
window_bounds n [] line_window = (1, n)
window_bounds n (t ∷ ts) line_window =
    (max 1 (smallest t ts - line_window), min n (greatest t ts + line_window))

abbrev pub ended_line : String → String
ended_line content = if truthy content then content <> "\n" else content

-- The rest of `read_code_window`, on the lines of the file.
unfoldable pub code_window : List String → List ℕ → ℕ → ℕ × ℕ × String
code_window [] target_lines line_window = (1, 1, "")
code_window (line ∷ lines) target_lines line_window =
    let (start_line, end_line) = window_bounds (length (line ∷ lines)) target_lines line_window in
    (
      start_line,
      end_line,
      ended_line (join "\n" (lines_between start_line end_line (line ∷ lines))),
    )

module _ (S : Sources) where
  -- The tests on a path that exists.
  abbrev pub kept_path : List String → Bool → Bool → Option (List String)
  kept_path relative include_tests false = none
  kept_path relative include_tests true =
      if is_left_out include_tests relative then none else some relative

  abbrev pub is_there : List String → Bool → Action S.World Bool
  is_there path false = pure false
  is_there path true = S.is_file path

  abbrev pub checked_path :
      List String → Bool → Option (List String) → Action S.World (Option (List String))
  checked_path resolved include_tests none = pure none
  checked_path resolved include_tests (some relative) =
      branch (not (path_suffix resolved == ".py")) (pure none) (
        S.exists resolved >>= is_there resolved >>= λ there.
        pure (kept_path relative include_tests there))

  abbrev pub after_resolve :
      List String → Bool → Attempted (List String) → Action S.World (Option (List String))
  after_resolve workspace include_tests (failed m) = pure none
  after_resolve workspace include_tests (done resolved) =
      checked_path resolved include_tests (relative_to workspace resolved)

  abbrev pub candidate_of : List String → String → List String
  candidate_of workspace raw_path =
      if is_absolute raw_path
      then path_parts raw_path
      else if is_absolute (forward_slashes raw_path)
      then path_parts (forward_slashes raw_path)
      else workspace ++ path_parts (forward_slashes raw_path)

  unfoldable pub resolve_python_path :
      List String → String → Bool → Action S.World (Option (List String))
  resolve_python_path workspace raw_path include_tests = S.resolve workspace >>= λ root.
      S.try_resolve (candidate_of root raw_path) >>= after_resolve root include_tests

  unfoldable pub read_code_window :
      List String → List String → List ℕ → ℕ → Action S.World (ℕ × ℕ × String)
  read_code_window workspace relative_path target_lines line_window =
      S.resolve workspace >>= λ root. S.read_text (root ++ relative_path) >>= λ content.
      pure (code_window (splitlines content) target_lines line_window)

  abbrev pub with_path : Bool → Option (List String) → List (List String) → List (List String)
  with_path include_tests none paths = paths
  with_path include_tests (some relative) paths =
      if is_left_out include_tests relative then paths else relative ∷ paths

  unfoldable pub relative_files :
      List String → Bool → List (List String) → Action S.World (List (List String))
  relative_files workspace include_tests [] = pure []
  relative_files workspace include_tests (path ∷ paths) = S.resolve path >>= λ resolved.
      relative_files workspace include_tests paths >>= λ rest.
      pure (with_path include_tests (relative_to workspace resolved) rest)

  unfoldable pub iter_python_files : List String → Bool → Action S.World (List (List String))
  iter_python_files workspace include_tests =
      S.resolve workspace >>= λ root. S.python_files root >>= relative_files root include_tests

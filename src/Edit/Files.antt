-- ===== src/Edit/Files.antt =====
-- The files that tools/replacement_tools.py reads and writes, as actions on a world. A path is the
-- list of its parts; a call in a `try` gives the text of the exception that the clause catches.
use pyfix_agent.Base.{String, ◌<>◌, Bool, true, false, List, [], ◌∷◌, ◌++◌}
use pyfix_agent.Base.Paths.{parent, path_stem}
use pyfix_agent.Base.Outcome.{Attempted, done, failed, Action, pure, ◌>>=◌}

pub record Files : Type 1 where
  pub World : Type 0
  -- `Path(workspace).resolve()`
  pub resolve_workspace : String → Action World (List String)
  -- `(workspace / path).resolve()`, in the `try` that catches ValueError
  pub resolve : List String → String → Action World (Attempted (List String))
  -- `target.read_text()`, in the `try` that catches OSError and UnicodeError
  pub read_text : List String → Action World (Attempted String)
  -- `target.write_text(content)`, and the calls of `_remove_python_bytecode_cache`, in the `try` that
  -- catches OSError
  pub write_text : List String → String → Action World (Attempted (Unit {0}))
  pub exists : List String → Action World (Attempted Bool)
  pub glob : List String → String → Action World (Attempted (List (List String)))
  pub unlink : List String → Action World (Attempted (Unit {0}))

module _ (F : Files) where
  -- The rest of a `try`, after a call in it.
  abbrev pub unless_failed :
      {A B : Type 0}
      → (A → Action F.World (Attempted B))
      → Attempted A
      → Action F.World (Attempted B)
  unless_failed k (failed m) = pure (failed m)
  unless_failed k (done a) = k a

  unfoldable pub unlink_all : List (List String) → Action F.World (Attempted (Unit {0}))
  unlink_all [] = pure (done tt)
  unlink_all (path ∷ paths) = F.unlink path >>= unless_failed (λ _. unlink_all paths)

  abbrev pub clear_cache : List String → String → Bool → Action F.World (Attempted (Unit {0}))
  clear_cache cache_dir stem false = pure (done tt)
  clear_cache cache_dir stem true = F.glob cache_dir (stem <> ".*.pyc") >>= unless_failed unlink_all

  -- `_remove_python_bytecode_cache`
  unfoldable pub remove_python_bytecode_cache : List String → Action F.World (Attempted (Unit {0}))
  remove_python_bytecode_cache source_path =
      let cache_dir = parent source_path ++ "__pycache__" ∷ [] in
      F.exists cache_dir >>= unless_failed (clear_cache cache_dir (path_stem source_path))

-- ===== src/Execution/Host.antt =====
-- What workspace.py and execution/ call outside of the program: git, the file system, the clock. A
-- path is the list of its parts. A call may raise: git where it cannot be run or does not end in time.
use pyfix_agent.Base.{ℕ, String, Bool, List}
use pyfix_agent.Base.Int.{ℤ}
use pyfix_agent.Base.Outcome.{Action}

pub record Completed : Type 0 where
  pub returncode : ℤ
  pub stdout : String
  pub stderr : String

pub record WorkspaceHost : Type 1 where
  pub World : Type 0
  -- `subprocess.run(["git", *args], cwd=cwd, timeout=timeout, ...)`
  pub git : List String → List String → ℕ → Action World Completed
  pub resolve : List String → Action World (List String)
  pub exists : List String → Action World Bool
  pub is_dir : List String → Action World Bool
  pub mkdtemp : String → Action World (List String)
  pub gettempdir : Action World (List String)
  pub rmtree : List String → Action World (Unit {0})
  -- `list_files` of tools/file_tools.py
  pub list_files : List String → Action World String
  -- `datetime.now().strftime(...)`
  pub now : String → Action World String
  pub mkdir : List String → Action World (Unit {0})
  pub write_text : List String → String → Action World (Unit {0})

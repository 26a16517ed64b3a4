-- ===== src/Edit/Backends/Host.antt =====
-- What repair/backends/replacement.py works on: the files and git, on one world.
use pyfix_agent.Base.{String, Bool, List}
use pyfix_agent.Base.Outcome.{Attempted, Action}
use pyfix_agent.Edit.Files.{Files}
use pyfix_agent.Edit.PatchText.{JsonDecoder}
use pyfix_agent.Edit.GitApply.{Git, GitRun}

pub record Host : Type 1 where
  pub World : Type 0
  pub resolve_workspace : String → Action World (List String)
  pub resolve : List String → String → Action World (Attempted (List String))
  pub read_text : List String → Action World (Attempted String)
  pub write_text : List String → String → Action World (Attempted (Unit {0}))
  pub exists : List String → Action World (Attempted Bool)
  pub glob : List String → String → Action World (Attempted (List (List String)))
  pub unlink : List String → Action World (Attempted (Unit {0}))
  pub run_git_apply : String → String → List String → Action World GitRun
  pub run_git_diff : String → Action World GitRun
  pub write_patch : String → String → Action World (Attempted (Unit {0}))
  pub decoder : JsonDecoder

abbrev pub files : Host → Files
files H = record {
  World = H.World;
  resolve_workspace = H.resolve_workspace;
  resolve = H.resolve;
  read_text = H.read_text;
  write_text = H.write_text;
  exists = H.exists;
  glob = H.glob;
  unlink = H.unlink;
}

abbrev pub git : Host → Git
git H = record {
  World = H.World;
  run_git_apply = H.run_git_apply;
  run_git_diff = H.run_git_diff;
  write_patch = H.write_patch;
  decoder = H.decoder;
}

-- ===== src/Edit/GitApply.antt =====
-- tools/patch_tools.py, the calls of git: `check_patch`, `apply_patch`, `get_git_diff`, `save_patch`.
use pyfix_agent.Base.{
  String, ◌<>◌, Bool, false, Option, none, some, List, [], ◌∷◌, or_text, if◌then◌else◌,
}
use pyfix_agent.Base.Int.{ℤ, is_code}
use pyfix_agent.Base.Outcome.{Attempted, done, failed, Action, pure, raise, runtime_error, ◌>>=◌}
use pyfix_agent.Edit.Policy.{EditPolicy}
use pyfix_agent.Edit.PatchText.{JsonDecoder, clean_patch_text}
use pyfix_agent.Edit.PatchCheck.{validate_patch_format, validate_edit_policy}

-- How `subprocess.run` of git ends, in the `try` of its caller: it completes, with its output as
-- text; it times out; or it raises another exception that the caller catches.
pub data GitRun : Type 0 where
  completed : ℤ → String → String → GitRun
  timed_out : String → GitRun
  not_run : String → GitRun

pub record Git : Type 1 where
  pub World : Type 0
  -- `_run_git_apply`, on the workspace, the patch and the command
  pub run_git_apply : String → String → List String → Action World GitRun
  -- `git diff -- .`
  pub run_git_diff : String → Action World GitRun
  -- the writing of `save_patch`
  pub write_patch : String → String → Action World (Attempted (Unit {0}))
  pub decoder : JsonDecoder

pub record PatchApplyResult : Type 0 where
  pub success : Bool
  pub stdout : String
  pub stderr : String
  pub error : Option String

abbrev pub rejected : String → PatchApplyResult
rejected m = record { success = false; stdout = ""; stderr = ""; error = some m }

abbrev pub checked : GitRun → PatchApplyResult
checked (completed code stdout stderr) = record {
  success = is_code 0 code;
  stdout = stdout;
  stderr = stderr;
  error =
      if is_code 0 code
      then none
      else some ("GIT_APPLY_CHECK_FAILED: " <> or_text stderr "git apply failed");
}
checked (timed_out m) = rejected ("git apply --check timed out after 30s: " <> m)
checked (not_run m) = rejected ("failed to check patch: " <> m)

abbrev pub applied : GitRun → PatchApplyResult
applied (completed code stdout stderr) = record {
  success = is_code 0 code;
  stdout = stdout;
  stderr = stderr;
  error = if is_code 0 code then none else some (or_text stderr "git apply failed");
}
applied (timed_out m) = rejected ("git apply timed out after 30s: " <> m)
applied (not_run m) = rejected ("failed to apply patch: " <> m)

abbrev pub diffed : GitRun → PatchApplyResult
diffed (completed code stdout stderr) = record {
  success = is_code 0 code;
  stdout = stdout;
  stderr = stderr;
  error =
      if is_code 0 code
      then none
      else some ("GIT_DIFF_FAILED: " <> or_text stderr "git diff failed");
}
diffed (timed_out m) = rejected ("GIT_DIFF_FAILED: git diff timed out after 30s: " <> m)
diffed (not_run m) = rejected ("GIT_DIFF_FAILED: failed to run git diff: " <> m)

-- Why a cleaned patch is not given to git.
unfoldable pub refusal : EditPolicy → String → Option String
refusal policy cleaned = elim (validate_patch_format cleaned) [
  | some (code, m) ↦ some (code <> ": " <> m)
  | none ↦ elim (validate_edit_policy cleaned policy) [
    | some m ↦ some ("EDIT_POLICY_REJECTED: " <> m)
    | none ↦ none
  ]
]

module _ (G : Git) where
  abbrev pub unless_refused :
      Option String → Action G.World PatchApplyResult → Action G.World PatchApplyResult
  unless_refused (some m) k = pure (rejected m)
  unless_refused none k = k

  unfoldable pub check_patch : String → String → EditPolicy → Action G.World PatchApplyResult
  check_patch workspace patch_text policy =
      let cleaned = clean_patch_text G.decoder patch_text in
      unless_refused (refusal policy cleaned) (
        G.run_git_apply workspace cleaned ("git" ∷ "apply" ∷ "--check" ∷ "-" ∷ []) >>= λ run.
        pure (checked run))

  unfoldable pub apply_patch : String → String → EditPolicy → Action G.World PatchApplyResult
  apply_patch workspace patch_text policy =
      let cleaned = clean_patch_text G.decoder patch_text in
      unless_refused (refusal policy cleaned) (
        G.run_git_apply workspace cleaned ("git" ∷ "apply" ∷ "-" ∷ []) >>= λ run.
        pure (applied run))

  unfoldable pub get_git_diff : String → Action G.World PatchApplyResult
  get_git_diff workspace = G.run_git_diff workspace >>= λ run. pure (diffed run)

  abbrev pub saved : String → Attempted (Unit {0}) → Action G.World (Unit {0})
  saved path (done u) = pure tt
  saved path (failed m) = raise (runtime_error ("failed to save patch to " <> path <> ": " <> m))

  unfoldable pub save_patch : String → String → Action G.World (Unit {0})
  save_patch patch_text path =
      G.write_patch path (clean_patch_text G.decoder patch_text) >>= saved path

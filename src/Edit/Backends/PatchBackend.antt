-- ===== src/Edit/Backends/PatchBackend.antt =====
-- repair/backends/patch.py: `PatchBackend.apply`, from a model's answer to a result with the stage at
-- which it failed.
use pyfix_agent.Base.{String, true, false, not, some, or_text?, string_eq}
use pyfix_agent.Base.Outcome.{Action, pure, branch, ◌>>=◌, ◌>>◌}
use pyfix_agent.Core.Contracts.{patch, check, apply, diff, ApplyResult, apply_defaults}
use pyfix_agent.Edit.Policy.{EditPolicy}
use pyfix_agent.Edit.PatchText.{clean_patch_text}
use pyfix_agent.Edit.GitApply.{
  Git, PatchApplyResult, check_patch, apply_patch, get_git_diff, save_patch,
}

module _ (G : Git) (policy : EditPolicy) where
  abbrev pub cleaned_result : String → String → ApplyResult
  cleaned_result raw_output patch_path = record (apply_defaults patch false raw_output) {
    cleaned_patch = clean_patch_text G.decoder raw_output;
    patch_path = patch_path;
  }

  abbrev pub after_patch_diff : String → String → PatchApplyResult → Action G.World ApplyResult
  after_patch_diff raw_output patch_path d =
      let error = or_text? d.error "git diff failed" in
      branch (not d.success)
        (pure (record (cleaned_result raw_output patch_path) {
          check_success = true;
          apply_success = true;
          apply_error = error;
          command = "git diff --";
          error = some error;
          failure_stage = some diff;
          applied_to_workspace = true;
        }))
        (save_patch G d.stdout patch_path
          >> pure (record (cleaned_result raw_output patch_path) {
            success = true;
            cleaned_patch = d.stdout;
            check_success = true;
            apply_success = true;
            command = "git diff --";
            applied_to_workspace = true;
          }))

  abbrev pub after_patch_apply :
      String → String → String → PatchApplyResult → Action G.World ApplyResult
  after_patch_apply workspace raw_output patch_path a =
      let error = or_text? a.error a.stderr in
      branch (not a.success)
        (pure (record (cleaned_result raw_output patch_path) {
          check_success = true;
          apply_error = error;
          command = "git apply -";
          error = some error;
          failure_stage = some apply;
        }))
        (get_git_diff G workspace >>= after_patch_diff raw_output patch_path)

  abbrev pub after_patch_check :
      String → String → String → PatchApplyResult → Action G.World ApplyResult
  after_patch_check workspace raw_output patch_path c =
      let error = or_text? c.error c.stderr in
      branch (not c.success)
        (pure (record (cleaned_result raw_output patch_path) {
          check_error = error;
          command = "git apply --check -";
          error = some error;
          failure_stage = some check;
        }))
        (apply_patch G workspace (clean_patch_text G.decoder raw_output) policy
          >>= after_patch_apply workspace raw_output patch_path)

  -- `PatchBackend.apply`
  unfoldable pub apply_as_patch : String → String → String → Action G.World ApplyResult
  apply_as_patch workspace raw_output patch_path =
      let cleaned = clean_patch_text G.decoder raw_output in
      save_patch G cleaned patch_path
      >> (check_patch G workspace cleaned policy
          >>= after_patch_check workspace raw_output patch_path)

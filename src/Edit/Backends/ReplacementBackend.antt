-- ===== src/Edit/Backends/ReplacementBackend.antt =====
-- repair/backends/replacement.py: `ReplacementBackend.apply`.
use pyfix_agent.Base.{String, true, false, not, some, List, or_text?}
use pyfix_agent.Base.Outcome.{Attempted, done, failed, Action, pure, branch, ◌>>=◌, ◌>>◌}
use pyfix_agent.Core.Contracts.{
  replacement, parse, apply, diff, ReplacementEdit, ApplyResult, apply_defaults,
}
use pyfix_agent.Edit.Policy.{EditPolicy}
use pyfix_agent.Edit.Replacement.{parse_replacements}
use pyfix_agent.Edit.Application.{ReplacementResult, apply_replacements}
use pyfix_agent.Edit.GitApply.{PatchApplyResult, get_git_diff, save_patch}
use pyfix_agent.Edit.Backends.Host.{Host, files, git}

module _ (H : Host) (policy : EditPolicy) where
  abbrev pub applied_result : String → List ReplacementEdit → ApplyResult
  applied_result raw_output edits = record (apply_defaults replacement false raw_output) {
    apply_success = true;
    command = "git diff --";
    applied_to_workspace = true;
    replacement_edits = some edits;
    replacement_success = some true;
  }

  abbrev pub after_replacement_diff :
      String → String → List ReplacementEdit → PatchApplyResult → Action H.World ApplyResult
  after_replacement_diff raw_output patch_path edits d =
      let error = or_text? d.error "git diff failed" in
      branch (not d.success)
        (pure (record (applied_result raw_output edits) {
          apply_error = error;
          error = some error;
          failure_stage = some diff;
        }))
        (save_patch (git H) d.stdout patch_path
          >> pure (record (applied_result raw_output edits) {
            success = true;
            cleaned_patch = d.stdout;
            patch_path = patch_path;
          }))

  abbrev pub after_replacements :
      String
      → String
      → String
      → List ReplacementEdit
      → ReplacementResult
      → Action H.World ApplyResult
  after_replacements workspace raw_output patch_path edits r =
      let error = or_text? r.error "replacement apply failed" in
      branch (not r.success)
        (pure (record (apply_defaults replacement false raw_output) {
          error = some error;
          failure_stage = some apply;
          replacement_edits = some edits;
          replacement_success = some false;
          replacement_error = some error;
        }))
        (get_git_diff (git H) workspace >>= after_replacement_diff raw_output patch_path edits)

  abbrev pub after_parse :
      String → String → String → Attempted (List ReplacementEdit) → Action H.World ApplyResult
  after_parse workspace raw_output patch_path (failed error) =
      pure (record (apply_defaults replacement false raw_output) {
        error = some error;
        failure_stage = some parse;
        replacement_success = some false;
        replacement_error = some error;
      })
  after_parse workspace raw_output patch_path (done edits) =
      apply_replacements (files H) workspace edits policy
      >>= after_replacements workspace raw_output patch_path edits

  -- `ReplacementBackend.apply`
  unfoldable pub apply_as_replacements : String → String → String → Action H.World ApplyResult
  apply_as_replacements workspace raw_output patch_path =
      after_parse workspace raw_output patch_path (parse_replacements H.decoder.loads raw_output)

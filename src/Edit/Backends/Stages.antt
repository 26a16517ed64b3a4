-- ===== src/Edit/Backends/Stages.antt =====
-- repair/backends/patch.py: what a refused patch leaves behind.
use pyfix_agent.Base.{◌≡◌, refl, String, false, some, or_text?}
use pyfix_agent.Base.Outcome.{returned}
use pyfix_agent.Core.Contracts.{check, ApplyResult}
use pyfix_agent.Edit.Policy.{EditPolicy}
use pyfix_agent.Edit.PatchText.{clean_patch_text}
use pyfix_agent.Edit.GitApply.{Git, refusal, check_patch, save_patch}
use pyfix_agent.Edit.Backends.PatchBackend.{apply_as_patch}

or_text-empty : (m : String) → or_text? (some m) "" ≡ m
or_text-empty String.[] = refl
or_text-empty (String.◌∷◌ c s) = refl

module _ (G : Git) (policy : EditPolicy) where
  -- If the cleaned answer was saved, and the patch that is made from it is malformed or against the
  -- edit policy, then git is not called: the result failed at the check with that reason, and the
  -- world is the one after the saving.
  pub apply_as_patch-refusal :
      (workspace raw path m : String) (w v : G.World)
      → save_patch G (clean_patch_text G.decoder raw) path w ≡ (returned tt, v)
      → refusal policy (clean_patch_text G.decoder (clean_patch_text G.decoder raw)) ≡ some m
      → (r : ApplyResult) × (apply_as_patch G policy workspace raw path w ≡ (returned r, v))
        × (r.failure_stage ≡ some check)
        × (r.error ≡ some m)
        × (r.applied_to_workspace ≡ false)
  unfolding apply_as_patch check_patch
  apply_as_patch-refusal workspace raw path m w v saved refused =
      rw (saved, refused) (_, refl, refl, rw (or_text-empty m) refl, refl)

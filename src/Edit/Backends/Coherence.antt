-- ===== src/Edit/Backends/Coherence.antt =====
-- repair/backends: the stage at which a backend fails, against the other fields of its result.
use pyfix_agent.Base.{◌≡◌, refl, String, Bool, true, false, Option, none, some, List}
use pyfix_agent.Base.Outcome.{Attempted, done, failed, Outcome, returned, raised, Ensures, resume}
use pyfix_agent.Core.Contracts.{
  RepairMode, patch, replacement, FailureStage, parse, check, apply, diff, ReplacementEdit,
  ApplyResult,
}
use pyfix_agent.Edit.Policy.{EditPolicy}
use pyfix_agent.Edit.Replacement.{parse_replacements}
use pyfix_agent.Edit.Application.{ReplacementResult, apply_replacements}
use pyfix_agent.Edit.GitApply.{
  Git, PatchApplyResult, check_patch, apply_patch, get_git_diff, save_patch,
}
use pyfix_agent.Edit.Backends.Host.{Host, files, git}
use pyfix_agent.Edit.Backends.PatchBackend.{
  after_patch_diff, after_patch_apply, after_patch_check, apply_as_patch,
}
use pyfix_agent.Edit.Backends.ReplacementBackend.{
  after_replacement_diff, after_replacements, after_parse, apply_as_replacements,
}

-- Whether the workspace was changed by the time that a stage failed.
abbrev pub was_applied : Option FailureStage → Bool
was_applied none = true
was_applied (some diff) = true
was_applied (some apply) = false
was_applied (some check) = false
was_applied (some parse) = false

-- A result without a stage is a success without an error, and a result with one is a failure with one.
abbrev pub Ends : Option FailureStage → ApplyResult → Type 0
Ends none r = (r.success ≡ true) × (r.error ≡ none)
Ends (some stage) r = (r.success ≡ false) × ((m : String) × (r.error ≡ some m))

abbrev pub IsCoherent : RepairMode → ApplyResult → Type 0
IsCoherent mode r =
    (r.mode ≡ mode)
    × (r.applied_to_workspace ≡ was_applied r.failure_stage)
    × (r.apply_success ≡ r.applied_to_workspace)
    × Ends r.failure_stage r

module _ {W : Type 0} where
  -- What follows a call of which nothing is known.
  followed :
      {A : Type 0} (mode : RepairMode) (r : Outcome A × W) (f : A → W → Outcome ApplyResult × W)
      → ((a : A) (v : W) → Ensures (λ x _. IsCoherent mode x) (λ _. Unit {0}) (f a v))
      → Ensures (λ x _. IsCoherent mode x) (λ _. Unit {0}) (resume r f)
  followed mode (returned a, v) f h = h a v
  followed mode (raised e, v) f h = tt

module _ (G : Git) (policy : EditPolicy) where
  abbrev PatchEnds : Outcome ApplyResult × G.World → Type 0
  PatchEnds = Ensures (λ r _. IsCoherent patch r) (λ _. Unit {0})

  after_patch_diff-IsCoherent :
      (raw path : String) (b : Bool) (d : PatchApplyResult) (w : G.World)
      → PatchEnds (after_patch_diff G policy raw path (record d { success = b }) w)
  after_patch_diff-IsCoherent raw path false d w = (refl, refl, refl, (refl, (_, refl)))
  after_patch_diff-IsCoherent raw path true d w =
      followed patch (save_patch G d.stdout path w) _ (λ u v. (refl, refl, refl, (refl, refl)))

  after_patch_apply-IsCoherent :
      (workspace raw path : String) (b : Bool) (a : PatchApplyResult) (w : G.World)
      → PatchEnds (after_patch_apply G policy workspace raw path (record a { success = b }) w)
  after_patch_apply-IsCoherent workspace raw path false a w = (refl, refl, refl, (refl, (_, refl)))
  after_patch_apply-IsCoherent workspace raw path true a w =
      followed patch (get_git_diff G workspace w) _
        (λ d v. after_patch_diff-IsCoherent raw path d.success d v)

  after_patch_check-IsCoherent :
      (workspace raw path : String) (b : Bool) (c : PatchApplyResult) (w : G.World)
      → PatchEnds (after_patch_check G policy workspace raw path (record c { success = b }) w)
  after_patch_check-IsCoherent workspace raw path false c w = (refl, refl, refl, (refl, (_, refl)))
  after_patch_check-IsCoherent workspace raw path true c w =
      followed patch (apply_patch G workspace _ policy w) _
        (λ a v. after_patch_apply-IsCoherent workspace raw path a.success a v)

  -- Whatever git does, a result of the patch backend is coherent: its mode is patch; it is a success
  -- without an error, or it failed at a stage and has an error; and the workspace counts as changed
  -- exactly if the result is a success or its stage is the diff.
  pub apply_as_patch-IsCoherent :
      (workspace raw path : String) (w : G.World)
      → Ensures
          (λ r _. IsCoherent patch r)
          (λ _. Unit {0})
          (apply_as_patch G policy workspace raw path w)
  unfolding apply_as_patch
  apply_as_patch-IsCoherent workspace raw path w = followed patch (save_patch G _ path w) _ (λ u v.
      followed patch (check_patch G workspace _ policy v) _
        (λ c t. after_patch_check-IsCoherent workspace raw path c.success c t))

module _ (H : Host) (policy : EditPolicy) where
  abbrev ReplacementEnds : Outcome ApplyResult × H.World → Type 0
  ReplacementEnds = Ensures (λ r _. IsCoherent replacement r) (λ _. Unit {0})

  after_replacement_diff-IsCoherent :
      (raw path : String) (edits : List ReplacementEdit) (b : Bool) (d : PatchApplyResult)
      (w : H.World)
      → ReplacementEnds
          (after_replacement_diff H policy raw path edits (record d { success = b }) w)
  after_replacement_diff-IsCoherent raw path edits false d w = (refl, refl, refl, (refl, (_, refl)))
  after_replacement_diff-IsCoherent raw path edits true d w =
      followed replacement (save_patch (git H) d.stdout path w) _
        (λ u v. (refl, refl, refl, (refl, refl)))

  after_replacements-IsCoherent :
      (workspace raw path : String) (edits : List ReplacementEdit) (b : Bool)
      (r : ReplacementResult) (w : H.World)
      → ReplacementEnds
          (after_replacements H policy workspace raw path edits (record r { success = b }) w)
  after_replacements-IsCoherent workspace raw path edits false r w =
      (refl, refl, refl, (refl, (_, refl)))
  after_replacements-IsCoherent workspace raw path edits true r w =
      followed replacement (get_git_diff (git H) workspace w) _
        (λ d v. after_replacement_diff-IsCoherent raw path edits d.success d v)

  after_parse-IsCoherent :
      (workspace raw path : String) (parsed : Attempted (List ReplacementEdit)) (w : H.World)
      → ReplacementEnds (after_parse H policy workspace raw path parsed w)
  after_parse-IsCoherent workspace raw path (failed m) w = (refl, refl, refl, (refl, (_, refl)))
  after_parse-IsCoherent workspace raw path (done edits) w =
      followed replacement (apply_replacements (files H) workspace edits policy w) _
        (λ r v. after_replacements-IsCoherent workspace raw path edits r.success r v)

  -- Whatever the files, git and the JSON decoder do, a result of the replacement backend is coherent:
  -- its mode is replacement; it is a success without an error, or it failed at a stage and has an
  -- error; and the workspace counts as changed exactly if the result is a success or its stage is the
  -- diff.
  pub apply_as_replacements-IsCoherent :
      (workspace raw path : String) (w : H.World)
      → Ensures
          (λ r _. IsCoherent replacement r)
          (λ _. Unit {0})
          (apply_as_replacements H policy workspace raw path w)
  unfolding apply_as_replacements
  apply_as_replacements-IsCoherent workspace raw path w =
      after_parse-IsCoherent workspace raw path (parse_replacements H.decoder.loads raw) w

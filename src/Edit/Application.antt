-- ===== src/Edit/Application.antt =====
-- `apply_replacements` of tools/replacement_tools.py: every edit is planned on texts first, and only
-- then the files are written.
pub mod Reading
pub mod Planning
pub mod Atomic
use pyfix_agent.Base.{
  ℕ, ◌+◌, max, String, ◌<>◌, Bool, true, false, Option, none, some, List, [], ◌∷◌, ◌++◌, map, join,
  contains, length, string_eq, splitlines, ◌==◌, if◌then◌else◌,
}
use pyfix_agent.Base.Outcome.{Attempted, done, failed, Action, pure, branch, ◌>>=◌}
use pyfix_agent.Base.Dict.{find_key, put, find_or, list_eq}
use pyfix_agent.Base.Paths.{is_absolute, relative_to, as_posix}
use pyfix_agent.Core.Contracts.{ReplacementEdit}
use pyfix_agent.Edit.Policy.{EditPolicy, validate_paths, validate_changed_lines}
use pyfix_agent.Edit.Splice.{edit_text}
use pyfix_agent.Edit.Files.{Files, unless_failed, remove_python_bytecode_cache}

pub record ReplacementResult : Type 0 where
  pub success : Bool
  pub changed_files : List String
  pub error : Option String

abbrev pub refuse : String → ReplacementResult
refuse m = record { success = false; changed_files = []; error = some m }

-- What has been read and planned so far.
pub record Plan : Type 0 where
  pub planned_changes : List (List String × String)
  pub originals : List (List String × String)
  pub changed_files : List String

abbrev pub no_plan : Plan
no_plan = record { planned_changes = []; originals = []; changed_files = [] }

unfoldable pub changed_line_sum : List ReplacementEdit → ℕ
changed_line_sum [] = 0
changed_line_sum (e ∷ es) =
    max (length (splitlines e.old)) (length (splitlines e.new)) + changed_line_sum es

module _ (F : Files) where
  abbrev pub located :
      List String → String → Attempted (List String) → Attempted (List String × String)
  located workspace path (failed m) = failed m
  located workspace path (done target) = elim (relative_to workspace target) [
    | none ↦ failed ("replacement path escapes workspace: " <> path)
    | some parts ↦ done (target, as_posix parts)
  ]

  -- `_resolve_target`, with the path that is reported
  unfoldable pub resolve_target :
      List String → String → Action F.World (Attempted (List String × String))
  resolve_target workspace path =
      branch (is_absolute path)
        (pure (failed ("replacement path must be relative to workspace: " <> path)))
        (F.resolve workspace path >>= λ target. pure (located workspace path target))

  abbrev pub remember : Plan → List String → String → Attempted String → Attempted Plan
  remember plan target path (failed m) =
      failed ("failed to read replacement target " <> path <> ": " <> m)
  remember plan target path (done content) =
      done (record plan { originals = put target content plan.originals })

  -- The text of a target, read when it is first met.
  unfoldable pub read_original : Plan → List String → String → Action F.World (Attempted Plan)
  read_original plan target path = elim (find_key target plan.originals) [
    | some content ↦ pure (done plan)
    | none ↦ F.read_text target >>= λ content. pure (remember plan target path content)
  ]

  abbrev pub current_text : Plan → List String → String
  current_text plan target = find_or target (find_or target "" plan.originals) plan.planned_changes

  abbrev pub with_change : Plan → List String → String → Attempted String → Attempted Plan
  with_change plan target rel (failed m) = failed m
  with_change plan target rel (done content) = done (record plan {
    planned_changes = put target content plan.planned_changes;
    changed_files =
        if contains rel plan.changed_files
        then plan.changed_files
        else plan.changed_files ++ rel ∷ [];
  })

  abbrev pub change : ReplacementEdit → List String → String → Attempted Plan → Attempted Plan
  change e target rel (failed m) = failed m
  change e target rel (done plan) =
      with_change plan target rel (edit_text (current_text plan target) e)

  abbrev pub at_target :
      Plan → ReplacementEdit → Attempted (List String × String) → Action F.World (Attempted Plan)
  at_target plan e (failed m) = pure (failed m)
  at_target plan e (done (target, rel)) =
      read_original plan target e.path >>= λ read. pure (change e target rel read)

  -- One round of the loop over the edits.
  unfoldable pub plan_edit : List String → Plan → ReplacementEdit → Action F.World (Attempted Plan)
  plan_edit workspace plan e = resolve_target workspace e.path >>= at_target plan e

  unfoldable pub plan_edits :
      List String → List ReplacementEdit → Plan → Action F.World (Attempted Plan)
  plan_edits workspace [] plan = pure (done plan)
  plan_edits workspace (e ∷ es) plan =
      plan_edit workspace plan e >>= unless_failed F (λ next. plan_edits workspace es next)

  -- The loop that writes, and what stops it.
  unfoldable pub write_changes : List (List String × String) → Action F.World (Attempted (Unit {0}))
  write_changes [] = pure (done tt)
  write_changes ((target, content) ∷ changes) =
      F.write_text target content
      >>= unless_failed F (λ _.
        remove_python_bytecode_cache F target >>= unless_failed F (λ _. write_changes changes))

  abbrev pub written : Plan → Attempted (Unit {0}) → ReplacementResult
  written plan (failed m) = refuse ("failed to write replacements: " <> m)
  written plan (done u) = record {
    success = true;
    changed_files = plan.changed_files;
    error = none;
  }

  abbrev pub write_plan : Attempted Plan → Action F.World ReplacementResult
  write_plan (failed m) = pure (refuse m)
  write_plan (done plan) = write_changes plan.planned_changes >>= λ end. pure (written plan end)

  abbrev pub policy_error : EditPolicy → List ReplacementEdit → Option String
  policy_error policy edits = elim (validate_paths policy (map (λ e. e.path) edits)) [
    | some m ↦ some m
    | none ↦ validate_changed_lines policy (changed_line_sum edits)
  ]

  abbrev pub unless_refused :
      Option String → Action F.World ReplacementResult → Action F.World ReplacementResult
  unless_refused (some m) k = pure (refuse m)
  unless_refused none k = k

  unfoldable pub apply_replacements :
      String → List ReplacementEdit → EditPolicy → Action F.World ReplacementResult
  apply_replacements workspace edits policy = F.resolve_workspace workspace >>= λ root.
      unless_refused (policy_error policy edits) (plan_edits root edits no_plan >>= write_plan)

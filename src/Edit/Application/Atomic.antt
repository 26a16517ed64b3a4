-- ===== src/Edit/Application/Atomic.antt =====
-- When the replacements of tools/replacement_tools.py reach the files, and with which texts.
use pyfix_agent.Base.{String, ◌≡◌, false, none, List, string_eq}
use pyfix_agent.Base.Outcome.{Attempted, Outcome, returned}
use pyfix_agent.Base.Dict.{list_eq}
use pyfix_agent.Core.Contracts.{ReplacementEdit}
use pyfix_agent.Edit.Policy.{EditPolicy}
use pyfix_agent.Edit.Files.{Files}
use pyfix_agent.Edit.Application.{ReplacementResult, Plan, write_changes, written, policy_error}
use pyfix_agent.Edit.Application.Reading.{IsPlan}

module _ (F : Files) (w : F.World) (workspace : String) (edits : List ReplacementEdit)
    (policy : EditPolicy) where
  -- What an application did: nothing, and it was refused; or the policy allows the edits, it wrote the
  -- files of their plan in order, and its result says whether that succeeded.
  pub data Applied (r : ReplacementResult) (t : F.World) : Type 0 where
    nothing : r.success ≡ false → t ≡ w → Applied r t
    wrote :
        (root : List String) (plan : Plan) (end : Attempted (Unit {0}))
        → F.resolve_workspace workspace w ≡ (returned root, w)
        → policy_error F policy edits ≡ none
        → IsPlan F w root edits plan
        → write_changes F plan.planned_changes w ≡ (returned end, t)
        → r ≡ written F plan end
        → Applied r t

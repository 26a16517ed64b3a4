-- ===== src/Repair/Prompting.antt =====
-- repair/prompting.py: the feedback texts of `PromptBuilder`. `build`, which fills a template, is
-- a parameter of the engine.
use pyfix_agent.Base.{ℕ, String, ◌<>◌, Bool, ◌==◌, join, show, or_text, or_text?, if◌then◌else◌}
use pyfix_agent.Core.Contracts.{RepairMode, replacement, mode_eq, mode_text, ApplyResult}
use pyfix_agent.Core.Schemas.{FailureType, failure_type_text, FailureDelta}

unfoldable pub patch_failure : String → String → String
patch_failure previous error =
    "The previous model response could not be applied by git apply.\nReturn a valid unified diff patch only. Do not use SEARCH/REPLACE blocks.\ngit apply error:\n"
    <> error <> "\n\nPrevious invalid patch:\n" <> previous

unfoldable pub replacement_failure : String → String → String
replacement_failure raw_output error =
    "The previous replacement response could not be parsed or applied.\nUse the failure reason below to fix the next JSON replacement attempt.\nIf old text appears multiple times, either make old longer with surrounding context or include start_line.\nReturn only a JSON array of objects with path, old, and new string fields.\nDo not return a unified diff patch or Markdown code block.\nReplacement failure reason:\n"
    <> error <> "\n\nPrevious replacement response:\n" <> raw_output

unfoldable pub semantic_test_failure :
    RepairMode → FailureType → FailureDelta → String → Bool → ℕ → String
semantic_test_failure mode failure_type delta test_output rolled_back context_expansion_level =
    "The previous edit produced semantic outcome: "
    <> failure_type_text failure_type
    <> ".\n"
    <> (if rolled_back
        then "The previous edit was rolled back. Generate a different repair against the restored source."
        else "The previous edit was checkpointed. Generate an incremental repair against the current source.")
    <> "\nContext expansion level for the next attempt: "
    <> show context_expansion_level
    <> ".\nFixed failures: "
    <> or_text (join ", " delta.fixed) "none"
    <> "\nRemaining failures: "
    <> or_text (join ", " delta.remaining) "none"
    <> "\nNew failures: "
    <> or_text (join ", " delta.new) "none"
    <> "\nRe-evaluate the general behavior and use the expanded current context; do not hard-code examples.\n"
    <> (if mode == replacement
        then "Return only a JSON array of exact replacements."
        else "Return only a valid unified diff patch.")
    <> "\nPytest output after the previous edit:\n"
    <> test_output

unfoldable pub apply_failure : ApplyResult → String
unfolding patch_failure replacement_failure
apply_failure r =
    if r.mode == replacement
    then replacement_failure r.raw_output (or_text? r.error "")
    else patch_failure r.cleaned_patch (or_text? r.error "")

unfoldable pub mode_switch_failure : ApplyResult → RepairMode → String
mode_switch_failure r next_mode =
    "The previous "
    <> mode_text r.mode
    <> " edit could not be applied, so the repair backend is switching to "
    <> mode_text next_mode
    <> " mode.\nFollow the output rules for the current mode and use the current source context as truth.\nPrevious failure reason:\n"
    <> or_text? r.error "unknown apply failure"

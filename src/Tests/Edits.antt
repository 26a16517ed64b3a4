-- ===== src/Tests/Edits.antt =====
-- Edits of a small workspace: an in-memory store of files, and a git that accepts every patch.
use pyfix_agent.Edit.Files.{remove_python_bytecode_cache, unlink_all}
use pyfix_agent.Edit.Fences.{strip_code_fence, without_last_fence}
use pyfix_agent.Base.Search.{occurrences_from, split_first}
use pyfix_agent.Base.{
  String, ◌<>◌, ◌≡◌, refl, true, false, Option, none, some, List, [], ◌∷◌, ◌++◌, length, ◌↔◌, arith,
  forward_slashes, word_of, text_length, if◌then◌else◌, ◌==◌, string_eq, splitlines, strip,
  after_prefix, take_text, drop_text, dedupe, join, show, in_text, lower, is_space, lstrip, rstrip,
}
use pyfix_agent.Base.Int.{pos, exceeds}
use pyfix_agent.Base.Outcome.{Attempted, done, failed, returned, Ensures}
use pyfix_agent.Base.Json.{
  Json, text, array, object, integer, Elements, nil, cons, member, elements,
}
use pyfix_agent.Base.Json
use pyfix_agent.Base.Paths.{
  relative_to, path_parts, strip_slashes, path_suffix, at_last_dot, lstrip_slashes, path_name,
  rstrip_slashes, split_slash,
}
use pyfix_agent.Base.Dict.{find_key, put, list_eq, list_equal}
use pyfix_agent.Core.Contracts.{patch, replacement, check, ReplacementEdit, ApplyResult}
use pyfix_agent.Edit.Policy.{
  EditPolicy, validate_paths, allowed_of, normalized, header_paths, first_path_error, path_error,
  normalize_path, normalize_prefix, validate_changed_lines,
}
use pyfix_agent.Edit.Policy.Paths.{AllPermitted, validate_paths-AllPermitted}
use pyfix_agent.Edit.Policy.Sides.{validate_paths-side, header_paths-second}
use pyfix_agent.Edit.Replacement.{
  edits_of_json, parse_items, parse_item, parse_members, text_field, build_edit, start_line_of,
}
use pyfix_agent.Edit.Replacement.Wellformed.{AllWellformed, edits_of_json-AllWellformed}
use pyfix_agent.Edit.Splice.{
  edit_text, find_occurrences, nearest_match_by_line, count_newlines, least, replace_at,
}
use pyfix_agent.Edit.Splice.Spliced.{Spliced, edit_text-Spliced}
use pyfix_agent.Edit.Splice.Matches.{find_occurrences_nowhere}
use pyfix_agent.Edit.Application.{
  apply_replacements, changed_line_sum, plan_edits, plan_edit, resolve_target, read_original,
  write_changes,
}
use pyfix_agent.Edit.PatchText.{
  clean_patch_text, normalize_lines, normalize_git_diff_headers, header_step,
  ensure_trailing_newline, clean_model_output, extract_first_json_object, extract_patch_text,
  from_patch_start,
}
use pyfix_agent.Edit.PatchText.Headers.{headed, headed-normalize_lines}
use pyfix_agent.Edit.PatchCheck.{validate_patch_format, has_natural_language_prefix}
use pyfix_agent.Edit.GitApply.{completed, refusal, save_patch}
use pyfix_agent.Edit.Backends.Host.{Host, files, git}
use pyfix_agent.Edit.Backends.PatchBackend.{apply_as_patch}
use pyfix_agent.Edit.Backends.ReplacementBackend.{apply_as_replacements}
use pyfix_agent.Edit.Backends.Coherence.{
  IsCoherent, apply_as_patch-IsCoherent, apply_as_replacements-IsCoherent,
}
use pyfix_agent.Edit.Backends.Stages.{apply_as_patch-refusal}

abbrev policy : EditPolicy
policy = record {
  allowed_paths = "src" ∷ [];
  forbidden_path_parts = "tests" ∷ [];
  allowed_suffixes = ".py" ∷ [];
  max_files = pos 2;
  max_changed_lines = pos 10;
}

validate_paths-AllPermitted_example : (validate_paths policy ("src/a.py" ∷ []) ≡ none) ↔ (
    (exceeds (length (normalized ("src/a.py" ∷ []))) (pos 2) ≡ false)
    × AllPermitted policy (allowed_of policy) (normalized ("src/a.py" ∷ [])))
validate_paths-AllPermitted_example = validate_paths-AllPermitted policy ("src/a.py" ∷ [])

validate_paths-side_example :
    validate_paths policy ("a/src/b.py" ∷ []) ≡ validate_paths policy ("src/b.py" ∷ [])
unfolding forward_slashes
validate_paths-side_example = validate_paths-side policy "src/b.py" refl

header_paths-second_example :
    header_paths ("diff --git a/tests/t.py b/src/a.py" ∷ [])
    ≡ header_paths ("diff --git a/src/b.py b/src/a.py" ∷ [])
unfolding word_of
header_paths-second_example =
    header_paths-second "a/tests/t.py" "a/src/b.py" "b/src/a.py" [] (refl, refl) (refl, refl)
      (refl, refl)

abbrev items : Elements
items =
    cons
      (object (
        member "path" (text "src/a.py") (
          member "old" (text "x = 1")
            (member "new" (text "x = 2") (member "start_line" (integer (pos 3)) Json.done)))))
      nil

abbrev the_edit : ReplacementEdit
the_edit = record { path = "src/a.py"; old = "x = 1"; new = "x = 2"; start_line = some 3 }

edits_of_json-AllWellformed_example : AllWellformed (the_edit ∷ []) × (1 ≡ length (elements items))
unfolding edits_of_json parse_items parse_item parse_members Json.lookup text_field build_edit
    start_line_of
edits_of_json-AllWellformed_example = edits_of_json-AllWellformed items (the_edit ∷ []) refl

edit_text-Spliced_example : Spliced "# x = 1\n\nx = 1\n" the_edit "# x = 1\n\nx = 2\n"
unfolding edit_text find_occurrences text_length occurrences_from split_first after_prefix
    nearest_match_by_line count_newlines take_text least replace_at drop_text
edit_text-Spliced_example =
    edit_text-Spliced "# x = 1\n\nx = 1\n" the_edit "# x = 1\n\nx = 2\n" (ground arith) refl

find_occurrences_nowhere_example :
    (find_occurrences "y = 2\n" "x = 1" ≡ [])
    ↔ ((before after : String) → ¬ ("y = 2\n" ≡ before <> ("x = 1" <> after)))
unfolding text_length
find_occurrences_nowhere_example = find_occurrences_nowhere "x = 1" "y = 2\n" (ground arith)

-- The world: the files by the parts of their paths, and the calls of git.
abbrev Store : Type 0
Store = List (List String × String) × List (List String)

abbrev read_file : Option String → Attempted String
read_file none = failed "no such file"
read_file (some content) = done content

abbrev host : Host
host = record {
  World = Store;
  resolve_workspace = λ workspace s. (returned ("/" ∷ "w" ∷ []), s);
  resolve = λ root path s. (returned (done (root ++ path_parts path)), s);
  read_text = λ target s. (returned (read_file (find_key target s.0)), s);
  write_text = λ target content s. (returned (done tt), (put target content s.0, s.1));
  exists = λ path s. (returned (done true), s);
  glob = λ path pattern s. (returned (done ((path ++ "a.cpython-311.pyc" ∷ []) ∷ [])), s);
  unlink = λ path s. (returned (done tt), (s.0, path ∷ s.1));
  run_git_apply =
      λ workspace diff command s. (returned (completed (pos 0) "" ""), (s.0, command ∷ s.1));
  run_git_diff =
      λ workspace s. (returned (completed (pos 0) "diff --git a/src/a.py b/src/a.py\n" ""), s);
  write_patch = λ path content s. (returned (done tt), s);
  decoder = record {
    raw_decode = λ s. none;
    loads = λ s. if s == "[]" then done (array items) else failed "no JSON";
  };
}

abbrev store : Store
store = (("/" ∷ "w" ∷ "src" ∷ "a.py" ∷ [], "# x = 1\n\nx = 1\n") ∷ [], [])

-- The edit is made in the store.
applied_test :
    find_key
      ("/" ∷ "w" ∷ "src" ∷ "a.py" ∷ [])
      (apply_replacements (files host) "/w" (the_edit ∷ []) policy store).1.0
    ≡ some "# x = 1\n\nx = 2\n"
unfolding list_equal find_key apply_replacements validate_paths dedupe first_path_error path_error
    normalize_path strip_slashes forward_slashes path_parts path_suffix normalize_prefix
    validate_changed_lines changed_line_sum splitlines plan_edits plan_edit resolve_target
    relative_to put at_last_dot lstrip_slashes path_name rstrip_slashes split_slash join show
    read_original write_changes edit_text find_occurrences text_length occurrences_from split_first
    after_prefix nearest_match_by_line count_newlines take_text least replace_at drop_text
    remove_python_bytecode_cache unlink_all
applied_test = refl

abbrev diff_lines : List String
diff_lines = "--- a/src/a.py" ∷ "+++ b/src/a.py" ∷ "@@ -1 +1 @@" ∷ "-x = 1" ∷ "+x = 2" ∷ []

headed-normalize_lines_example : headed none (normalize_lines none diff_lines) ≡ true
headed-normalize_lines_example = headed-normalize_lines none diff_lines

abbrev diff_text : String
diff_text = "--- a/src/a.py\n+++ b/src/a.py\n@@ -1 +1 @@\n-x = 1\n+x = 2\n"

apply_as_patch-IsCoherent_example :
    Ensures
      (λ r _. IsCoherent patch r)
      (λ _. Unit {0})
      (apply_as_patch (git host) policy "/w" diff_text "p.patch" store)
apply_as_patch-IsCoherent_example =
    apply_as_patch-IsCoherent (git host) policy "/w" diff_text "p.patch" store

apply_as_replacements-IsCoherent_example :
    Ensures
      (λ r _. IsCoherent replacement r)
      (λ _. Unit {0})
      (apply_as_replacements host policy "/w" "[]" "p.patch" store)
apply_as_replacements-IsCoherent_example =
    apply_as_replacements-IsCoherent host policy "/w" "[]" "p.patch" store

apply_as_patch-refusal_example :
    (r : ApplyResult) × (apply_as_patch (git host) policy "/w" "I cannot" "p.patch" store
      ≡ (returned r, store))
    × (r.failure_stage ≡ some check)
    × (r.error ≡ some "MISSING_DIFF_GIT_HEADER: patch does not contain diff --git header")
    × (r.applied_to_workspace ≡ false)
unfolding save_patch refusal validate_patch_format strip clean_patch_text ensure_trailing_newline
    normalize_git_diff_headers join normalize_lines splitlines clean_model_output
    extract_first_json_object strip_code_fence extract_patch_text in_text
    has_natural_language_prefix lower lstrip rstrip is_space header_step without_last_fence
    from_patch_start
apply_as_patch-refusal_example =
    apply_as_patch-refusal (git host) policy "/w" "I cannot" "p.patch"
      "MISSING_DIFF_GIT_HEADER: patch does not contain diff --git header" store store refl refl

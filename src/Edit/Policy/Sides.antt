-- ===== src/Edit/Policy/Sides.antt =====
-- What tools/edit_policy.py does not look at: git's prefix of a path, and the first path of a header.
use pyfix_agent.Base.{
  String, ◌<>◌, ◌≡◌, refl, ap, sym, ◌∙◌, true, false, some, List, [], ◌∷◌, arith, starts_any,
  drop_text-append, forward_slashes-append, forward_slashes, truthy, text_length, word_of,
  string_eq, after_prefix-append, word_of-append,
}
use text.Mathlib.TextPositions.{starts_with-append}
use pyfix_agent.Base.Paths.{strip_slashes}
use pyfix_agent.Edit.Policy.{
  EditPolicy, without_side, normalize_path, validate_paths, second_path, header_paths,
}

without_side-side : (path : String) → without_side ("a/" <> path) ≡ path
unfolding text_length
without_side-side path = rw (starts_with-append "a/" path) (drop_text-append "a/" path)

without_side-plain :
    (path : String) → starts_any path ("a/" ∷ "b/" ∷ []) ≡ false → without_side path ≡ path
without_side-plain path h = rw h refl

normalize_path-side :
    (path : String)
    → starts_any (forward_slashes path) ("a/" ∷ "b/" ∷ []) ≡ false
    → normalize_path ("a/" <> path) ≡ normalize_path path
unfolding normalize_path forward_slashes
normalize_path-side path h = ap strip_slashes (
    ap without_side (forward_slashes-append "a/" path)
    ∙ (without_side-side (forward_slashes path)
        ∙ sym (without_side-plain (forward_slashes path) h)))

-- A path that git's prefix "a/" is put in front of is judged as the path without it, whatever the
-- policy: the directory `a` of the path is not seen, though the file that an edit names is in it.
pub validate_paths-side :
    (p : EditPolicy) (path : String)
    → starts_any (forward_slashes path) ("a/" ∷ "b/" ∷ []) ≡ false
    → validate_paths p (("a/" <> path) ∷ []) ≡ validate_paths p (path ∷ [])
unfolding validate_paths
validate_paths-side p path h = ground (arith, normalize_path-side path h)

-- One word, with no white space in it.
abbrev pub IsWord : String → Type 0
IsWord s = (truthy s ≡ true) × (word_of s ≡ s)

second_path-header :
    (old new : String)
    → IsWord old
    → IsWord new
    → second_path ("diff --git " <> (old <> (" " <> new))) ≡ some new
unfolding second_path
second_path-header old new o n = ground (
  arith,
  after_prefix-append "diff --git " (old <> (" " <> new)),
  word_of-append old new o.1,
  after_prefix-append old (" " <> new),
  after_prefix-append " " new,
  string_eq.equals_iff (word_of new) new,
)

-- Only the second path of a header counts: whichever file a patch renames, the paths that the
-- policy is asked about are those of a patch that renames any other file.
pub header_paths-second :
    (old other new : String) (lines : List String)
    → IsWord old
    → IsWord other
    → IsWord new
    → header_paths (("diff --git " <> (old <> (" " <> new))) ∷ lines)
      ≡ header_paths (("diff --git " <> (other <> (" " <> new))) ∷ lines)
unfolding header_paths
header_paths-second old other new lines o p n =
    ground (arith, second_path-header old new o n, second_path-header other new p n)

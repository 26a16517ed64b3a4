-- ===== src/Edit/PatchText/Headers.antt =====
-- The headers of the patches that `normalize_git_diff_headers` of tools/patch_tools.py makes.
use Prim.Native.Char.{Char, code}
use Prim.Native.String.{char_at}
use text.Mathlib.TextEquality.{starts_with_iff}
use text.Mathlib.TextLemmas.{cons-append, head-eq_of_cons-eq}
use text.Mathlib.TextPositions.{starts_with-append}
use pyfix_agent.Base.{
  String, ◌<>◌, starts_with, Bool-cases, sym, ap, ◌∙◌, ◌⊎◌, inl, inr, ◌≡◌, refl, Bool, true, false,
  ◌&&◌, Option, some, List, [], ◌∷◌, arith, string_eq,
}
use pyfix_agent.Edit.PatchText.{
  expected_header, is_active, HeaderStep, git_header, null_file, file_lines, other_line,
  header_step, header_path, normalize_lines,
}

-- Every pair of file lines that neither creates nor deletes a file stands under git's header for its
-- two paths.
unfoldable pub headed : Option String → List String → Bool
headed active [] = true
headed active (line ∷ []) = true
headed active (line ∷ (next ∷ lines)) = elim (header_step line next) [
  | git_header ↦ headed (some line) (next ∷ lines)
  | null_file ↦ headed active lines
  | file_lines ↦
      is_active active (expected_header line next)
      && headed (some (expected_header line next)) lines
  | other_line ↦ headed active (next ∷ lines)
]

abbrev plus : Char
plus = char_at "+" 0

abbrev dee : Char
dee = char_at "d" 0

not_plus : (s : String) → starts_with ("diff --git " <> s) "+++ " ≡ false
not_plus s = elim (Bool-cases (starts_with ("diff --git " <> s) "+++ ")) [
  | inl yes_ ↦
      let (r, e) = (starts_with_iff ("diff --git " <> s) "+++ ").0 yes_ in
      let heads : plus ≡ dee =
        head-eq_of_cons-eq
          (sym (cons-append plus "++ " r) ∙ (e ∙ cons-append dee "iff --git " s)) in
      let codes : code plus ≡ code dee = ap code heads in absurd (omega arith)
  | inr no_ ↦ no_
]

-- What begins the normalized lines: the line itself, or git's header put in front of it.
Leads : String → String → Type 0
Leads next head = (next ≡ head) ⊎ (starts_with head "+++ " ≡ false)

header_step-git : (s next : String) → header_step ("diff --git " <> s) next ≡ git_header
unfolding header_step
header_step-git s next = ground (arith, starts_with-append "diff --git " s)

header_step-Leads :
    (line next head : String)
    → header_step line next ≡ other_line
    → Leads next head
    → header_step line head ≡ other_line
unfolding header_step Leads
header_step-Leads line next head h (inl e) = rw (sym e) h
header_step-Leads line next head h (inr f) = ground arith

step-git :
    (line next head : String)
    → header_step line next ≡ git_header
    → header_step line head ≡ git_header
unfolding header_step
step-git line next head h = ground arith

normalize_lines-Leads :
    (active : Option String) (next : String) (lines : List String)
    → (head : String) × (rest : List String) × (normalize_lines active (next ∷ lines) ≡ head ∷ rest)
      × Leads next head
unfolding normalize_lines Leads
normalize_lines-Leads active next [] = (next, [], refl, inl refl)
normalize_lines-Leads active next (behind ∷ lines) = stepped (header_step next behind) refl
  where
    stepped :
        (step : HeaderStep)
        → header_step next behind ≡ step
        → (head : String) × (rest : List String) × (normalize_lines active (next ∷ (behind ∷ lines))
            ≡ head ∷ rest)
          × Leads next head
    stepped git_header q =
        (next, normalize_lines (some next) (behind ∷ lines), ground (arith, q), inl refl)
    stepped null_file q = (next, behind ∷ normalize_lines active lines, ground (arith, q), inl refl)
    stepped other_line q =
        (next, normalize_lines active (behind ∷ lines), ground (arith, q), inl refl)
    stepped file_lines q = elim (Bool-cases (is_active active (expected_header next behind))) [
      | inl a ↦ (
        next,
        behind ∷ normalize_lines (some (expected_header next behind)) lines,
        ground (arith, q, a),
        inl refl,
      )
      | inr a ↦ (
        expected_header next behind,
        next ∷ (behind ∷ normalize_lines (some (expected_header next behind)) lines),
        ground (arith, q, a),
        inr (not_plus (header_path next <> " " <> header_path behind)),
      )
    ]

headed_behind :
    (active after : Option String) (line next : String) (lines : List String) (step : HeaderStep)
    → header_step line next ≡ step
    → (step ≡ git_header) × (after ≡ some line) ⊎ ((step ≡ other_line) × (after ≡ active))
    → headed after (normalize_lines after (next ∷ lines)) ≡ true
    → headed active (line ∷ normalize_lines after (next ∷ lines)) ≡ true
unfolding headed
headed_behind active after line next lines step q (inl (g, a)) ih =
    let (head, rest, e, _) = normalize_lines-Leads after next lines in
    rw e (ground (arith, step-git line next head (q ∙ g), a, ap (headed after) e, ih))
headed_behind active after line next lines step q (inr (o, a)) ih =
    let (head, rest, e, l) = normalize_lines-Leads after next lines in
    rw e (ground (arith, header_step-Leads line next head (q ∙ o) l, a, ap (headed after) e, ih))

headed_file :
    (active : Option String) (line next : String) (lines : List String)
    → header_step line next ≡ file_lines
    → headed (some (expected_header line next)) lines ≡ true
    → headed active (expected_header line next ∷ (line ∷ (next ∷ lines))) ≡ true
unfolding headed
headed_file active line next lines q h = ground (
  arith,
  q,
  h,
  header_step-git (header_path line <> " " <> header_path next) line,
  string_eq.equals_iff (expected_header line next) (expected_header line next),
)

-- In the normalized lines, every pair of file lines that neither creates nor deletes a file stands
-- under git's header for its two paths.
pub headed-normalize_lines :
    (active : Option String) (lines : List String)
    → headed active (normalize_lines active lines) ≡ true
unfolding headed normalize_lines
headed-normalize_lines active [] = refl
headed-normalize_lines active (line ∷ []) = refl
headed-normalize_lines active (line ∷ (next ∷ lines)) =
    stepped (header_step line next) refl (λ a. headed-normalize_lines a (next ∷ lines))
      (λ a. headed-normalize_lines a lines)
  where
    stepped :
        (step : HeaderStep)
        → header_step line next ≡ step
        → ((a : Option String) → headed a (normalize_lines a (next ∷ lines)) ≡ true)
        → ((a : Option String) → headed a (normalize_lines a lines) ≡ true)
        → headed active (normalize_lines active (line ∷ (next ∷ lines))) ≡ true
    stepped git_header q ih more = ground (
      arith,
      q,
      headed_behind active (some line) line next lines git_header q (inl (refl, refl))
          (ih (some line)),
    )
    stepped null_file q ih more = ground (arith, q, more active)
    stepped other_line q ih more = ground (
      arith,
      q,
      headed_behind active active line next lines other_line q (inr (refl, refl)) (ih active),
    )
    stepped file_lines q ih more =
        elim (Bool-cases (is_active active (expected_header line next))) [
          | inl on ↦ ground (arith, q, on, more (some (expected_header line next)))
          | inr off ↦
              let N = normalize_lines (some (expected_header line next)) lines in
              let e : normalize_lines active (line ∷ (next ∷ lines))
                  ≡ expected_header line next ∷ (line ∷ (next ∷ N)) =
                ground (arith, q, off) in
              ap (headed active) e
              ∙ headed_file active line next N q (more (some (expected_header line next)))
        ]

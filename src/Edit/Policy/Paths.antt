-- ===== src/Edit/Policy/Paths.antt =====
-- Which paths tools/edit_policy.py lets through.
use pyfix_agent.Base.{
  String, ◌≡◌, refl, ◌⊎◌, inl, inr, ◌↔◌, true, false, none, List, [], ◌∷◌, arith, any, contains,
  nonempty, length, string_eq, any-witness, any-intro, Bool-cases,
}
use pyfix_agent.Base.Int.{exceeds}
use pyfix_agent.Base.Paths.{path_parts, path_suffix, is_absolute}
use pyfix_agent.Edit.Policy.{
  EditPolicy, is_under, path_error, first_path_error, allowed_of, normalized, validate_paths,
}

-- A path that an edit may write, by its components: it stays inside the workspace and out of git's
-- directory, has an allowed suffix, has no forbidden component, and is under an allowed path if any
-- are given.
pub record IsPermitted (p : EditPolicy) (allowed : List String) (path : String) : Type 0 where
  pub relative : is_absolute path ≡ false
  pub inside : contains ".." (path_parts path) ≡ false
  pub outside_git : contains ".git" (path_parts path) ≡ false
  pub suffix : contains (path_suffix (path_parts path)) p.allowed_suffixes ≡ true
  pub unforbidden :
      (part : String)
      → contains part (path_parts path) ≡ true
      → contains part p.forbidden_path_parts ≡ false
  pub allowed_here :
      (allowed ≡ [])
      ⊎ ((prefix : String) × (contains prefix allowed ≡ true) × (is_under path prefix ≡ true))

abbrev pub AllPermitted : EditPolicy → List String → List String → Type 0
AllPermitted p allowed [] = Unit
AllPermitted p allowed (path ∷ paths) = IsPermitted p allowed path × AllPermitted p allowed paths

module _ (p : EditPolicy) (allowed : List String) (path : String) where
  forbidden_none :
      any (λ part. contains part p.forbidden_path_parts) (path_parts path) ≡ false
      → (part : String) → contains part (path_parts path) ≡ true
      → contains part p.forbidden_path_parts ≡ false
  forbidden_none h part m = elim (Bool-cases (contains part p.forbidden_path_parts)) [
    | inl f ↦
        ground (
          arith,
          any-intro (λ part. contains part p.forbidden_path_parts) (path_parts path) part m f,
        )
    | inr f ↦ f
  ]

  unforbidden_none :
      ((part : String)
        → contains part (path_parts path) ≡ true
        → contains part p.forbidden_path_parts ≡ false)
      → any (λ part. contains part p.forbidden_path_parts) (path_parts path) ≡ false
  unforbidden_none h =
      elim (Bool-cases (any (λ part. contains part p.forbidden_path_parts) (path_parts path))) [
        | inl f ↦
            let (part, m, q) =
              any-witness (λ part. contains part p.forbidden_path_parts) (path_parts path) f in
            ground (arith, h part m)
        | inr f ↦ f
      ]

  some_prefix :
      nonempty allowed ≡ false ⊎ (any (is_under path) allowed ≡ true)
      → (allowed ≡ [])
        ⊎ ((prefix : String) × (contains prefix allowed ≡ true) × (is_under path prefix ≡ true))
  some_prefix (inl e) = inl (ground arith)
  some_prefix (inr h) = inr (any-witness (is_under path) allowed h)

  prefix_some :
      (allowed ≡ [])
        ⊎ ((prefix : String) × (contains prefix allowed ≡ true) × (is_under path prefix ≡ true))
      → nonempty allowed ≡ false ⊎ (any (is_under path) allowed ≡ true)
  prefix_some (inl e) = inl (ground arith)
  prefix_some (inr (prefix, m, u)) = inr (any-intro (is_under path) allowed prefix m u)

  path_error-IsPermitted : path_error p allowed path ≡ none → IsPermitted p allowed path
  unfolding path_error
  path_error-IsPermitted h = record {
    relative = ground arith;
    inside = ground arith;
    outside_git = ground arith;
    suffix = ground arith;
    unforbidden = forbidden_none (ground arith);
    allowed_here = some_prefix (ground arith);
  }

  IsPermitted-path_error : IsPermitted p allowed path → path_error p allowed path ≡ none
  unfolding path_error
  IsPermitted-path_error h = ground (
    arith,
    h.relative,
    h.inside,
    h.outside_git,
    h.suffix,
    unforbidden_none h.unforbidden,
    prefix_some h.allowed_here,
  )

first_path_error-AllPermitted :
    (p : EditPolicy) (allowed paths : List String)
    → (first_path_error p allowed paths ≡ none) ↔ AllPermitted p allowed paths
unfolding first_path_error
first_path_error-AllPermitted p allowed [] = (λ h. tt, λ h. refl)
first_path_error-AllPermitted p allowed (path ∷ paths) =
    let rest = first_path_error-AllPermitted p allowed paths in
    (
      λ h. (path_error-IsPermitted p allowed path (ground arith), rest.0 (ground (arith, h))),
      λ h. ground (arith, IsPermitted-path_error p allowed path h.0, rest.1 h.1),
    )

-- The policy accepts a list of paths exactly when, once they are normalized and taken once each,
-- they are no more than its number of files and every one of them is permitted.
pub validate_paths-AllPermitted :
    (p : EditPolicy) (paths : List String)
    → (validate_paths p paths ≡ none) ↔ (
        (exceeds (length (normalized paths)) p.max_files ≡ false)
        × AllPermitted p (allowed_of p) (normalized paths))
unfolding validate_paths
validate_paths-AllPermitted p paths =
    let each = first_path_error-AllPermitted p (allowed_of p) (normalized paths) in
    (λ h. (ground arith, each.0 (ground (arith, h))), λ h. ground (arith, h.0, each.1 h.1))

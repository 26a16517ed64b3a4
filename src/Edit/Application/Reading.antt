-- ===== src/Edit/Application/Reading.antt =====
-- What the planning of tools/replacement_tools.py has read: the texts of the files, as they are.
use pyfix_agent.Base.{
  ◌≤◌, String, ◌≡◌, ◌≢◌, ◌++◌, refl, ap, inl, inr, Option, none, some, List, [], ◌∷◌, arith,
  text_length, string_eq, Bool-cases, ◌==◌,
}
use pyfix_agent.Base.Outcome.{
  Attempted, done, failed, Outcome, returned, raised, Action, Ensures, pure, ◌>>=◌, resume,
}
use pyfix_agent.Base.Dict.{find_key, find_key-put, find_or, list_eq, list_equal_lem}
use pyfix_agent.Core.Contracts.{ReplacementEdit}
use pyfix_agent.Edit.Splice.Spliced.{Spliced}
use pyfix_agent.Edit.Files.{Files}
use pyfix_agent.Edit.Application.{Plan, remember, read_original}

-- Every edit looks for some text, as the parser makes sure.
abbrev pub AllSearchable : List ReplacementEdit → Type 0
AllSearchable [] = Unit
AllSearchable (e ∷ es) = (1 ≤ text_length e.old) × AllSearchable es

-- Resolving and reading leave the world as it is.
pub record ReadsOnly (F : Files) : Type 0 where
  pub root : (workspace : String) (w : F.World) → (F.resolve_workspace workspace w).1 ≡ w
  pub resolve : (root : List String) (path : String) (w : F.World) → (F.resolve root path w).1 ≡ w
  pub read : (target : List String) (w : F.World) → (F.read_text target w).1 ≡ w

-- No file twice.
abbrev pub AllDistinct : List (List String × String) → Type 0
AllDistinct [] = Unit
AllDistinct ((target, content) ∷ changes) = (find_key target changes ≡ none) × AllDistinct changes

module _ (F : Files) (w : F.World) where
  -- What these edits, in order, make of the text of one file: each edit that resolves to the file
  -- replaces one occurrence of its old text, and each that resolves to another file leaves it.
  pub data Edited (root target : List String) (original : String)
      : List ReplacementEdit → String → Type 0 where
    unchanged : Edited root target original [] original
    elsewhere :
        (es : List ReplacementEdit) (current : String) (e : ReplacementEdit) (other : List String)
        → F.resolve root e.path w ≡ (returned (done other), w)
        → other ≢ target
        → Edited root target original es current
        → Edited root target original (es ++ e ∷ []) current
    then_ :
        (es : List ReplacementEdit) (current : String) (e : ReplacementEdit) (result : String)
        → F.resolve root e.path w ≡ (returned (done target), w)
        → Spliced current e result
        → Edited root target original es current
        → Edited root target original (es ++ e ∷ []) result

  -- The plan of these edits: the originals are the texts of their files in this world; the text that is
  -- planned for a file, or its original where none is, is what the edits make of it; a file without an
  -- original is planned nothing for, and no edit changes it; and no file is planned twice.
  pub record IsPlan (root : List String) (es : List ReplacementEdit) (plan : Plan) : Type 0 where
    pub read :
        (target : List String) (original : String)
        → find_key target plan.originals ≡ some original
        → F.read_text target w ≡ (returned (done original), w)
    pub edited :
        (target : List String) (original : String)
        → find_key target plan.originals ≡ some original
        → Edited root target original es (find_or target original plan.planned_changes)
    pub fresh :
        (target : List String)
        → find_key target plan.originals ≡ none
        → (find_key target plan.planned_changes ≡ none)
          × ((text : String) → Edited root target text es text)
    pub distinct : AllDistinct plan.planned_changes

module _ (F : Files) (reads : ReadsOnly F) (w : F.World) where
  -- A call that leaves the world where it is, with a result of which Q holds.
  abbrev pub Reads : {A : Type 0} → (A → Type 0) → Outcome A × F.World → Type 0
  Reads Q r = Ensures (λ a t. (t ≡ w) × Q a) (λ t. t ≡ w) r

  pub Reads-then :
      {A B : Type 0} (R : A → Type 0) (Q : B → Type 0) (r : Outcome A × F.World)
      (k : A → Action F.World B)
      → Reads R r
      → ((a : A) → R a → Reads Q (k a w))
      → Reads Q (resume r k)
  Reads-then R Q (returned a, t) k h next = rw h.0 (next a h.1)
  Reads-then R Q (raised x, t) k h next = h

  pub still : {A : Type 0} (r : Outcome A × F.World) → r.1 ≡ w → Reads (λ a. r ≡ (returned a, w)) r
  still (returned a, t) e = (e, ap (λ t. (returned a, t)) e)
  still (raised x, t) e = e

module _ (F : Files) (reads : ReadsOnly F) (w : F.World) (root : List String)
    (es : List ReplacementEdit) where
  -- A plan that knows the text of a target.
  abbrev pub Knows : List String → Attempted Plan → Type 0
  Knows target (failed m) = Unit
  Knows target (done plan) =
      IsPlan F w root es plan
      × ((original : String) × (find_key target plan.originals ≡ some original))

  remembered :
      (plan : Plan) (target : List String) (path content : String)
      → IsPlan F w root es plan
      → find_key target plan.originals ≡ none
      → F.read_text target w ≡ (returned (done content), w)
      → Knows target (remember F plan target path (done content))
  remembered plan target path content p missing h = (
    record {
      read = λ t original q. elim (Bool-cases (target == t)) [
        | inl same ↦ ground (
          arith,
          find_key-put target t content plan.originals,
          same,
          q,
          list_equal_lem target t,
          h,
        )
        | inr other ↦
            p.read t original
              (ground (arith, find_key-put target t content plan.originals, other, q))
      ];
      edited = λ t original q. elim (Bool-cases (target == t)) [
        | inl same ↦
            let here : target ≡ t = (list_equal_lem target t).0 same in
            let text : content ≡ original =
              ground (arith, find_key-put target t content plan.originals, same, q) in
            let f = p.fresh t (rw here at missing) in rw (find_or, f.0) (f.1 original)
        | inr other ↦
            p.edited t original
              (ground (arith, find_key-put target t content plan.originals, other, q))
      ];
      fresh = λ t m. p.fresh t (ground (arith, find_key-put target t content plan.originals, m));
      distinct = p.distinct;
    },
    (
      content,
      ground
          (arith, find_key-put target target content plan.originals, list_equal_lem target target),
    ),
  )

  pub read_original-Knows :
      (plan : Plan) (target : List String) (path : String)
      → IsPlan F w root es plan
      → Reads F reads w (Knows target) (read_original F plan target path w)
  unfolding read_original
  read_original-Knows plan target path p = known (find_key target plan.originals) refl
    where
      new_text :
          (content : Attempted String)
          → find_key target plan.originals ≡ none
          → F.read_text target w ≡ (returned content, w)
          → Knows target (remember F plan target path content)
      new_text (failed m) missing h = tt
      new_text (done content) missing h = remembered plan target path content p missing h

      known :
          (o : Option String)
          → find_key target plan.originals ≡ o
          → Reads F reads w (Knows target) (
              (elim o as (λ o. Action F.World (Attempted Plan)) [
                | some content ↦ pure (done plan)
                | none ↦
                    F.read_text target >>= λ content. pure (remember F plan target path content)
              ])
                w)
      known (some content) q = (refl, (p, (content, q)))
      known none q =
          Reads-then F reads w (λ content. F.read_text target w ≡ (returned content, w))
            (Knows target) (F.read_text target w)
            (λ content. pure (remember F plan target path content))
            (still F reads w (F.read_text target w) (reads.read target w))
            (λ content h. (refl, new_text content q h))

-- ===== src/Edit/Application/Planning.antt =====
-- What the planning of tools/replacement_tools.py plans: texts that its edits lead to.
use pyfix_agent.Base.{
  ◌≤◌, String, ◌<>◌, ◌≡◌, ◌≢◌, ◌++◌, refl, sym, ◌∙◌, ap, inl, inr, Option, none, some, List, [],
  ◌∷◌, arith, text_length, string_eq, Bool-cases, ◌==◌,
}
use mathlib.Core.Path.{subst}
use mathlib.Core.Bool.{false≢true}
use mathlib.Core.List.{append-nil, append_assoc}
use pyfix_agent.Base.Outcome.{Attempted, done, failed, returned, Ensures-branch, pure, ◌>>=◌}
use pyfix_agent.Base.Dict.{find_key, find_key-put, put, find_or, list_eq, list_equal_lem}
use pyfix_agent.Base.Paths.{is_absolute, relative_to, as_posix}
use pyfix_agent.Core.Contracts.{ReplacementEdit}
use pyfix_agent.Edit.Splice.{edit_text}
use pyfix_agent.Edit.Splice.Spliced.{Spliced, edit_text-Spliced}
use pyfix_agent.Edit.Files.{Files, unless_failed}
use pyfix_agent.Edit.Application.{
  Plan, located, resolve_target, read_original, current_text, with_change, change, at_target,
  plan_edit, plan_edits,
}
use pyfix_agent.Edit.Application.Reading.{
  Edited, elsewhere, then_, AllSearchable, AllDistinct, ReadsOnly, IsPlan, Knows, Reads, Reads-then,
  still, read_original-Knows,
}

put-AllDistinct :
    (target : List String) (content : String) (changes : List (List String × String))
    → AllDistinct changes
    → AllDistinct (put target content changes)
unfolding find_key put
put-AllDistinct target content [] d = (refl, tt)
put-AllDistinct target content ((other, text) ∷ changes) d = elim (Bool-cases (other == target)) [
  | inl same ↦ rw same d
  | inr apart ↦ rw apart (
    ground (
      arith,
      find_key-put target other content changes,
      list_equal_lem other target,
      list_equal_lem target other,
      apart,
      d.0,
    ),
    put-AllDistinct target content changes d.1,
  )
]

some_inj : {x y : String} → some x ≡ some y → x ≡ y
some_inj h = ground (arith, h)

none≢some : {x : String} → none ≢ some x
none≢some h = absurd (cc)

module _ (F : Files) (reads : ReadsOnly F) (w : F.World) (root : List String) where
  abbrev pub PlanOr : List ReplacementEdit → Attempted Plan → Type 0
  PlanOr es (failed m) = Unit
  PlanOr es (done plan) = IsPlan F w root es plan

  -- The target that an edit's path resolves to.
  abbrev Resolved : String → Attempted (List String × String) → Type 0
  Resolved path (failed m) = Unit
  Resolved path (done (target, rel)) = F.resolve root path w ≡ (returned (done target), w)

  module _ (es : List ReplacementEdit) (e : ReplacementEdit) (target : List String)
      (resolved : F.resolve root e.path w ≡ (returned (done target), w)) where
    changed-IsPlan :
        (plan : Plan) (rel original content : String)
        → IsPlan F w root es plan
        → find_key target plan.originals ≡ some original
        → Spliced (current_text F plan target) e content
        → PlanOr (es ++ e ∷ []) (with_change F plan target rel (done content))
    changed-IsPlan plan rel original content p known spliced = record {
      read = p.read;
      edited = λ t o q. elim (Bool-cases (target == t)) [
        | inl same ↦
            let here : target ≡ t = (list_equal_lem target t).0 same in
            let origin : original ≡ o =
              some_inj (sym known ∙ ap (λ x. find_key x plan.originals) here ∙ q) in
            let text : content ≡ find_or t o (put target content plan.planned_changes) =
              ground (arith, find_key-put target t content plan.planned_changes, same) in
            subst (λ x. Edited F w root t o (es ++ e ∷ []) x) text
              (subst (λ x. Edited F w root x o (es ++ e ∷ []) content) here
                (subst (λ x. Edited F w root target x (es ++ e ∷ []) content) origin
                  (then_ es (current_text F plan target) e content resolved spliced (
                    subst (λ x. Edited F w root target original es x) (ground (arith, known))
                      (p.edited target original known)))))
        | inr apart ↦
            let text : find_or t o plan.planned_changes
                ≡ find_or t o (put target content plan.planned_changes) =
              ground (arith, find_key-put target t content plan.planned_changes, apart) in
            subst (λ x. Edited F w root t o (es ++ e ∷ []) x) text
              (elsewhere es (find_or t o plan.planned_changes) e target resolved
                (λ x. false≢true (sym apart ∙ (list_equal_lem target t).1 x)) (p.edited t o q))
      ];
      fresh = λ t m.
          let apart : target ≢ t =
            λ x. none≢some (sym m ∙ ap (λ y. find_key y plan.originals) (sym x) ∙ known) in
          let f = p.fresh t m in
          (
            ground (
              arith,
              find_key-put target t content plan.planned_changes,
              f.0,
              list_equal_lem target t,
              apart,
            ),
            λ text. elsewhere es text e target resolved apart (f.1 text),
          );
      distinct = put-AllDistinct target content plan.planned_changes p.distinct;
    }

    change-PlanOr :
        (rel : String) (r : Attempted Plan)
        → 1 ≤ text_length e.old
        → Knows F reads w root es target r
        → PlanOr (es ++ e ∷ []) (change F e target rel r)
    change-PlanOr rel (failed m) z k = tt
    change-PlanOr rel (done plan) z k = edited_by (edit_text (current_text F plan target) e) refl
      where
        edited_by :
            (r : Attempted String)
            → edit_text (current_text F plan target) e ≡ r
            → PlanOr (es ++ e ∷ []) (with_change F plan target rel r)
        edited_by (failed m) q = tt
        edited_by (done content) q =
            changed-IsPlan plan rel k.1.0 content k.0 k.1.1
              (edit_text-Spliced (current_text F plan target) e content z q)

  located-Resolved :
      (path : String) (r : Attempted (List String))
      → F.resolve root path w ≡ (returned r, w)
      → Resolved path (located F root path r)
  located-Resolved path (failed m) h = tt
  located-Resolved path (done target) h = inside (relative_to root target)
    where
      inside :
          (o : Option (List String))
          → Resolved path (elim o [
            | none ↦ failed ("replacement path escapes workspace: " <> path)
            | some parts ↦ done (target, as_posix parts)
          ])
      inside none = tt
      inside (some parts) = h

  resolve_target-Resolved :
      (path : String) → Reads F reads w (Resolved path) (resolve_target F root path w)
  unfolding resolve_target
  resolve_target-Resolved path =
      Ensures-branch (λ r t. (t ≡ w) × Resolved path r) (λ t. t ≡ w) (is_absolute path)
        (pure (failed ("replacement path must be relative to workspace: " <> path)))
        (F.resolve root path >>= λ target. pure (located F root path target)) w (λ a. (refl, tt))
        (λ r.
          Reads-then F reads w (λ target. F.resolve root path w ≡ (returned target, w))
            (Resolved path) (F.resolve root path w) (λ target. pure (located F root path target))
            (still F reads w (F.resolve root path w) (reads.resolve root path w))
            (λ target h. (refl, located-Resolved path target h)))

  at_target-PlanOr :
      (es : List ReplacementEdit) (plan : Plan) (e : ReplacementEdit)
      (r : Attempted (List String × String))
      → 1 ≤ text_length e.old
      → IsPlan F w root es plan
      → Resolved e.path r
      → Reads F reads w (PlanOr (es ++ e ∷ [])) (at_target F plan e r w)
  at_target-PlanOr es plan e (failed m) z p h = (refl, tt)
  at_target-PlanOr es plan e (done (target, rel)) z p h =
      Reads-then F reads w (Knows F reads w root es target) (PlanOr (es ++ e ∷ []))
        (read_original F plan target e.path w) (λ read. pure (change F e target rel read))
        (read_original-Knows F reads w root es plan target e.path p)
        (λ read k. (refl, change-PlanOr es e target h rel read z k))

  plan_edit-PlanOr :
      (es : List ReplacementEdit) (plan : Plan) (e : ReplacementEdit)
      → 1 ≤ text_length e.old
      → IsPlan F w root es plan
      → Reads F reads w (PlanOr (es ++ e ∷ [])) (plan_edit F root plan e w)
  unfolding plan_edit
  plan_edit-PlanOr es plan e z p =
      Reads-then F reads w (Resolved e.path) (PlanOr (es ++ e ∷ []))
        (resolve_target F root e.path w) (at_target F plan e) (resolve_target-Resolved e.path)
        (λ r h. at_target-PlanOr es plan e r z p h)

  -- The planning of edits, where the edits `earlier` are planned already.
  pub plan_edits-PlanOr :
      (earlier es : List ReplacementEdit) (plan : Plan)
      → AllSearchable es
      → IsPlan F w root earlier plan
      → Reads F reads w (PlanOr (earlier ++ es)) (plan_edits F root es plan w)
  unfolding plan_edits
  plan_edits-PlanOr earlier [] plan s p = (refl, rw (append-nil earlier) p)
  plan_edits-PlanOr earlier (e ∷ es) plan s p =
      let rest = λ (next : Plan) (q : IsPlan F w root (earlier ++ e ∷ []) next).
        plan_edits-PlanOr (earlier ++ e ∷ []) es next s.1 q in
      Reads-then F reads w (PlanOr (earlier ++ e ∷ [])) (PlanOr (earlier ++ e ∷ es))
        (plan_edit F root plan e w) (unless_failed F (λ next. plan_edits F root es next))
        (plan_edit-PlanOr earlier plan e s.0 p) (λ r q. go r q rest)
    where
      go :
          (r : Attempted Plan)
          → PlanOr (earlier ++ e ∷ []) r
          → ((next : Plan)
              → IsPlan F w root (earlier ++ e ∷ []) next
              → Reads F reads w (PlanOr ((earlier ++ e ∷ []) ++ es)) (plan_edits F root es next w))
          → Reads F reads w
              (PlanOr (earlier ++ e ∷ es))
              (unless_failed F (λ next. plan_edits F root es next) r w)
      go (failed m) q rest = (refl, tt)
      go (done next) q rest =
          subst (λ all. Reads F reads w (PlanOr all) (plan_edits F root es next w))
            (append_assoc earlier (e ∷ []) es) (rest next q)

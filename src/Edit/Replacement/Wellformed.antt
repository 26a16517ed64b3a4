-- ===== src/Edit/Replacement/Wellformed.antt =====
-- The edits that tools/replacement_tools.py reads from an answer.
use pyfix_agent.Base.{
  ℕ, suc, ◌≤◌, String, ◌≡◌, ◌≢◌, refl, Option, some, List, [], ◌∷◌, arith, string_eq, length,
  nonempty, Bool-cases, inl, inr,
}
use pyfix_agent.Base.Outcome.{Attempted, done, failed}
use pyfix_agent.Base.Attempts.{◌>>=◌}
use pyfix_agent.Base.Json.{
  Json, null, boolean, integer, float, text, array, object, Members, Elements, elements,
}
use pyfix_agent.Core.Contracts.{ReplacementEdit}
use pyfix_agent.Edit.Replacement.{
  missing_fields, build_edit, text_field, start_line_of, parse_members, parse_item, parse_items,
  edits_of_json,
}

-- An edit that can be looked for and that changes something.
pub record IsWellformed (e : ReplacementEdit) : Type 0 where
  pub path : e.path ≢ ""
  pub old : e.old ≢ ""
  pub changes : e.old ≢ e.new
  pub line : (n : ℕ) → e.start_line ≡ some n → 1 ≤ n

abbrev pub AllWellformed : List ReplacementEdit → Type 0
AllWellformed [] = Unit
AllWellformed (e ∷ es) = IsWellformed e × AllWellformed es

start_line_of-positive :
    (index : ℕ) (ms : Members) (o : Option ℕ) (n : ℕ)
    → start_line_of index ms ≡ done o
    → o ≡ some n
    → 1 ≤ n
unfolding start_line_of
start_line_of-positive index ms o n h e = ground arith

build_edit-IsWellformed :
    (index : ℕ) (ms : Members) (path old new : String) (e : ReplacementEdit)
    → build_edit index ms path old new ≡ done e
    → IsWellformed e
unfolding build_edit
build_edit-IsWellformed index ms path old new e h = built (start_line_of index ms) refl
  where
    built : (o : Attempted (Option ℕ)) → start_line_of index ms ≡ o → IsWellformed e
    built (failed m) l = absurd (ground (arith, h, l))
    built (done line) l = record {
      path = ground (arith, string_eq.equals_iff path "", h, l);
      old = ground (arith, string_eq.equals_iff old "", h, l);
      changes = ground (arith, string_eq.equals_iff old new, h, l);
      line = λ n q. start_line_of-positive index ms line n l (ground (arith, h, l, q));
    }

fields-IsWellformed :
    (index : ℕ) (ms : Members) (path old new : Attempted String) (e : ReplacementEdit)
    → path >>= (λ p. old >>= λ o. new >>= λ n. build_edit index ms p o n) ≡ done e
    → IsWellformed e
fields-IsWellformed index ms (failed m) old new e h = absurd (cc)
fields-IsWellformed index ms (done p) (failed m) new e h = absurd (cc)
fields-IsWellformed index ms (done p) (done o) (failed m) e h = absurd (cc)
fields-IsWellformed index ms (done p) (done o) (done n) e h =
    build_edit-IsWellformed index ms p o n e h

parse_members-IsWellformed :
    (index : ℕ) (ms : Members) (e : ReplacementEdit)
    → parse_members index ms ≡ done e
    → IsWellformed e
unfolding parse_members
parse_members-IsWellformed index ms e h = elim (Bool-cases (nonempty (missing_fields ms))) [
  | inl t ↦ absurd (ground (arith, h))
  | inr f ↦
      fields-IsWellformed index ms (text_field index ms "path") (text_field index ms "old")
        (text_field index ms "new") e (rw f at h)
]

parse_item-IsWellformed :
    (index : ℕ) (item : Json) (e : ReplacementEdit)
    → parse_item index item ≡ done e
    → IsWellformed e
unfolding parse_item
parse_item-IsWellformed index (object ms) e h = parse_members-IsWellformed index ms e h
parse_item-IsWellformed index null e h = absurd (cc)
parse_item-IsWellformed index (boolean b) e h = absurd (cc)
parse_item-IsWellformed index (integer n) e h = absurd (cc)
parse_item-IsWellformed index (float s b) e h = absurd (cc)
parse_item-IsWellformed index (text s) e h = absurd (cc)
parse_item-IsWellformed index (array vs) e h = absurd (cc)

parse_items-AllWellformed :
    (index : ℕ) (items : List Json) (es : List ReplacementEdit)
    → parse_items index items ≡ done es
    → AllWellformed es × (length es ≡ length items)
unfolding parse_items
parse_items-AllWellformed index [] es h = ground arith
parse_items-AllWellformed index (item ∷ items) es h =
    split (parse_item index item) (parse_items (suc index) items) refl refl
      (parse_items-AllWellformed (suc index) items)
  where
    split :
        (one : Attempted ReplacementEdit) (more : Attempted (List ReplacementEdit))
        → parse_item index item ≡ one
        → parse_items (suc index) items ≡ more
        → ((fs : List ReplacementEdit)
            → parse_items (suc index) items ≡ done fs
            → AllWellformed fs × (length fs ≡ length items))
        → AllWellformed es × (length es ≡ suc (length items))
    split (failed m) more p q ih = absurd (ground (arith, h, p))
    split (done e) (failed m) p q ih = absurd (ground (arith, h, p, q))
    split (done e) (done fs) p q ih =
        let r = ih fs q in
        let w = parse_item-IsWellformed index item e p in ground (arith, h, p, q, r, w)

-- What is read from an array is one edit for each item, each with a path and a text to look for,
-- which differs from the new text, and with a line of 1 or more if it has one.
pub edits_of_json-AllWellformed :
    (vs : Elements) (es : List ReplacementEdit)
    → edits_of_json (array vs) ≡ done es
    → AllWellformed es × (length es ≡ length (elements vs))
unfolding edits_of_json
edits_of_json-AllWellformed vs es h = parse_items-AllWellformed 0 (elements vs) es h

-- ===== src/Edit/Splice/Matches.antt =====
-- Where tools/replacement_tools.py finds a text, and what an edit of a file does to it.
use pyfix_agent.Base.{
  ℕ, zero, suc, ◌+◌, ◌≤◌, ◌<◌, max, String, ◌<>◌, ◌≡◌, ◌↔◌, List, ◌∷◌, refl, sym, ap, ◌∙◌, inl, inr,
  true, Option, none, some, [], arith, contains, nat_eq, text_length, text_length-append, ◌==◌,
  Bool-cases,
}
use text.Mathlib.TextLemmas.{nil-append, append_assoc}
use pyfix_agent.Base.Search.{split_first, split_first_sound, split_first_nowhere, occurrences_from}
use pyfix_agent.Edit.Splice.{find_occurrences}

-- The needle stands in the text at a position.
pub record Occurs (needle text : String) (index : ℕ) : Type 0 where
  pub before : String
  pub after : String
  pub here : text ≡ before <> (needle <> after)
  pub position : text_length before ≡ index

Occurs-behind :
    (needle text front before after : String) (start : ℕ)
    → text ≡ before <> (needle <> after)
    → text_length front ≡ start
    → Occurs needle (front <> text) (start + text_length before)
Occurs-behind needle text front before after start e l = record {
  before = front <> before;
  after = after;
  here = ap (λ t. front <> t) e ∙ sym (append_assoc front before (needle <> after));
  position = omega (arith, text_length-append front before);
}

-- Every position that is found is one of the whole text.
pub occurrences-Occurs :
    (rounds start : ℕ) (needle s text front : String) (i : ℕ)
    → 1 ≤ text_length needle
    → text ≡ front <> s
    → text_length front ≡ start
    → contains i (occurrences_from rounds start needle s) ≡ true
    → Occurs needle text i
unfolding occurrences_from
occurrences-Occurs zero start needle s text front i z e l h = absurd (cc)
occurrences-Occurs (suc rounds) start needle s text front i z e l h =
    found (split_first needle s) refl
      λ k after front' e' l' h'. occurrences-Occurs rounds k needle after text front' i z e' l' h'
  where
    found :
        (o : Option (String × String))
        → split_first needle s ≡ o
        → ((k : ℕ) (after front' : String)
            → text ≡ front' <> after
            → text_length front' ≡ k
            → contains i (occurrences_from rounds k needle after) ≡ true
            → Occurs needle text i)
        → Occurs needle text i
    found none p ih = absurd (ground (arith, h, p))
    found (some (before, after)) p ih =
        let whole : text ≡ front <> (before <> (needle <> after)) =
          e ∙ ap (λ t. front <> t) (split_first_sound needle s before after p) in
        let index = start + text_length before in
        elim (Bool-cases (index == i)) [
          | inl here ↦ record {
            before = front <> before;
            after = after;
            here = whole ∙ sym (append_assoc front before (needle <> after));
            position = ground (arith, text_length-append front before);
          }
          | inr further ↦
              ih (index + max 1 (text_length needle)) after (front <> (before <> needle))
                (whole
                  ∙ (ap (λ t. front <> t) (sym (append_assoc before needle after))
                      ∙ sym (append_assoc front (before <> needle) after)))
                (omega (
                  arith,
                  text_length-append front (before <> needle),
                  text_length-append before needle,
                ))
                (ground (arith, h, p))
        ]

-- With more rounds than the text has characters, the rounds do not matter.
occurrences_enough :
    (r q start : ℕ) (needle s : String)
    → 1 ≤ text_length needle
    → text_length s < r
    → text_length s < q
    → occurrences_from r start needle s ≡ occurrences_from q start needle s
unfolding occurrences_from
occurrences_enough zero q start needle s z h k = absurd (omega arith)
occurrences_enough (suc r) zero start needle s z h k = absurd (omega arith)
occurrences_enough (suc r) (suc q) start needle s z h k =
    found (split_first needle s) refl
      λ index after h' k'. occurrences_enough r q index needle after z h' k'
  where
    found :
        (o : Option (String × String))
        → split_first needle s ≡ o
        → ((index : ℕ) (after : String)
            → text_length after < r
            → text_length after < q
            → occurrences_from r index needle after ≡ occurrences_from q index needle after)
        → occurrences_from (suc r) start needle s ≡ occurrences_from (suc q) start needle s
    found none p ih = ground (arith, p)
    found (some (before, after)) p ih =
        let e : text_length s ≡ text_length before + (text_length needle + text_length after) =
          ap text_length (split_first_sound needle s before after p)
          ∙ omega (
            arith,
            text_length-append before (needle <> after),
            text_length-append needle after,
          ) in
        ground (
          arith,
          p,
          ih (start + text_length before + max 1 (text_length needle)) after (omega arith)
              (omega arith),
        )

occurrences_nowhere :
    (needle text before after : String)
    → find_occurrences text needle ≡ []
    → ¬ (text ≡ before <> (needle <> after))
unfolding find_occurrences occurrences_from
occurrences_nowhere needle text before after h e = missing (split_first needle text) refl
  where
    missing : (o : Option (String × String)) → split_first needle text ≡ o → ⊥
    missing none p = split_first_nowhere needle text before after p e
    missing (some (b, a)) p = absurd (ground (arith, h, p))

-- A text that is not empty is found nowhere exactly if it does not stand in the text.
pub find_occurrences_nowhere :
    (needle text : String)
    → 1 ≤ text_length needle
    → (find_occurrences text needle ≡ [])
      ↔ ((before after : String) → ¬ (text ≡ before <> (needle <> after)))
unfolding find_occurrences text_length
find_occurrences_nowhere needle text z = (
  λ h before after. occurrences_nowhere needle text before after h,
  λ h. listed (find_occurrences text needle) refl h,
)
  where
    listed :
        (is : List ℕ)
        → find_occurrences text needle ≡ is
        → ((before after : String) → ¬ (text ≡ before <> (needle <> after)))
        → find_occurrences text needle ≡ []
    listed [] p h = p
    listed (i ∷ is) p h =
        let o =
          occurrences-Occurs (suc (text_length text)) 0 needle text text "" i z
            (sym (nil-append text)) refl (ground (arith, p)) in
        absurd (h o.before o.after o.here)

-- ===== src/Edit/Splice/Spliced.antt =====
-- What an edit of tools/replacement_tools.py does to the text of a file.
use mathlib.Core.Path.{subst}
use pyfix_agent.Edit.Splice.Matches.{Occurs, occurrences-Occurs}
use pyfix_agent.Base.{
  ℕ, suc, ◌+◌, ◌≤◌, String, ◌<>◌, ◌≡◌, refl, sym, ap, ◌∙◌, Bool, true, Option, none, some, List, [],
  ◌∷◌, keep, map, arith, contains, nat_eq, text_length, text_length-append, take_text-append,
  drop_text, drop_text-append, ◌==◌,
}
use text.Mathlib.TextLemmas.{append_assoc, nil-append}
use pyfix_agent.Base.Outcome.{done}
use pyfix_agent.Core.Contracts.{ReplacementEdit}
use pyfix_agent.Edit.Splice.{
  find_occurrences, only, least, closest, distance, line_of, nearest_match_by_line, replace_at,
  at_match, at_matches, edit_text,
}

contains-keep :
    (p : ℕ → Bool) (i : ℕ) (xs : List ℕ) → contains i (keep p xs) ≡ true → contains i xs ≡ true
contains-keep p i [] h = h
contains-keep p i (x ∷ xs) h = ground (arith, contains-keep p i xs)

contains-only : (i : ℕ) (xs : List ℕ) → only xs ≡ some i → contains i xs ≡ true
contains-only i [] h = absurd (cc)
contains-only i (x ∷ []) h = ground arith
contains-only i (x ∷ (y ∷ xs)) h = absurd (cc)

closest-contains :
    (away : ℕ → ℕ) (m : ℕ) (ms : List ℕ) (i : ℕ)
    → closest away m ms ≡ some i
    → contains i (m ∷ ms) ≡ true
closest-contains away m ms i h =
    let nearest : ℕ → Bool = λ index. away index == least (away m) (map away ms) in
    contains-keep nearest i (m ∷ ms) (contains-only i (keep nearest (m ∷ ms)) h)

nearest-contains :
    (text : String) (matches : List ℕ) (line : Option ℕ) (i : ℕ)
    → nearest_match_by_line text matches line ≡ some i
    → contains i matches ≡ true
unfolding nearest_match_by_line
nearest-contains text matches none i h = absurd (cc)
nearest-contains text [] (some line) i h = absurd (cc)
nearest-contains text (m ∷ ms) (some line) i h =
    closest-contains (λ index. distance (line_of text index) line) m ms i h

-- A text with one occurrence of the old text of an edit replaced by its new text.
pub record Spliced (current : String) (e : ReplacementEdit) (result : String) : Type 0 where
  pub before : String
  pub after : String
  pub old_text : current ≡ before <> (e.old <> after)
  pub new_text : result ≡ before <> (e.new <> after)

replace_at-Spliced :
    (current : String) (e : ReplacementEdit) (i : ℕ)
    → Occurs e.old current i
    → Spliced current e (replace_at current i e.old e.new)
unfolding replace_at
replace_at-Spliced current e i o = record {
  before = o.before;
  after = o.after;
  old_text = o.here;
  new_text =
      rw (o.here, sym o.position)
        (rw (take_text-append o.before (e.old <> o.after))
          (ap (λ t. o.before <> (e.new <> t)) behind));
}
  where
    behind :
        drop_text (text_length o.before + text_length e.old) (o.before <> (e.old <> o.after))
        ≡ o.after
    behind =
        ap (λ n. drop_text n (o.before <> (e.old <> o.after)))
          (sym (text_length-append o.before e.old))
        ∙ (ap (drop_text (text_length (o.before <> e.old)))
              (sym (append_assoc o.before e.old o.after))
            ∙ drop_text-append (o.before <> e.old) o.after)

at_match-Spliced :
    (current : String) (e : ReplacementEdit) (o : Option ℕ) (result : String)
    → ((i : ℕ) → o ≡ some i → Occurs e.old current i)
    → at_match current e o ≡ done result
    → Spliced current e result
at_match-Spliced current e none result found h = absurd (cc)
at_match-Spliced current e (some i) result found h =
    subst (Spliced current e) (cc) (replace_at-Spliced current e i (found i refl))

at_matches-Spliced :
    (current : String) (e : ReplacementEdit) (matches : List ℕ) (result : String)
    → ((i : ℕ) → contains i matches ≡ true → Occurs e.old current i)
    → at_matches current e matches ≡ done result
    → Spliced current e result
at_matches-Spliced current e [] result found h = absurd (cc)
at_matches-Spliced current e (m ∷ []) result found h =
    at_match-Spliced current e (some m) result (λ i q. found i (ground (arith, q))) h
at_matches-Spliced current e (m ∷ (n ∷ ms)) result found h = lined e.start_line refl
  where
    lined : (line : Option ℕ) → e.start_line ≡ line → Spliced current e result
    lined none p = absurd (ground (arith, h, p))
    lined (some line) p =
        at_match-Spliced current e (nearest_match_by_line current (m ∷ (n ∷ ms)) (some line)) result
          (λ i q. found i (nearest-contains current (m ∷ (n ∷ ms)) (some line) i q))
          (ground (arith, h, p))

-- An edit that is made replaces one occurrence of its old text by its new one and keeps what stands
-- before and behind.
pub edit_text-Spliced :
    (current : String) (e : ReplacementEdit) (result : String)
    → 1 ≤ text_length e.old
    → edit_text current e ≡ done result
    → Spliced current e result
unfolding edit_text find_occurrences text_length
edit_text-Spliced current e result z h =
    at_matches-Spliced current e (find_occurrences current e.old) result
      (λ i m.
        occurrences-Occurs (suc (text_length current)) 0 e.old current current "" i z
          (sym (nil-append current)) refl m)
      h

-- ===== src/Base/Search.antt =====
-- Occurrences of a text in a text: `find`, and the rest behind what it finds.
use Prim.Native.Char.{Char}
use Prim.Native.Nat.{ℕ, zero, suc, ◌+◌, max}
use Prim.Native.String.{String, ◌++◌ as ◌<>◌}
use mathlib.Core.Path.{◌≡◌, refl, ap, ◌∙◌}
use text.Mathlib.TextEquality.{Char-path}
use mathlib.Core.List.{List, [], ◌∷◌}
use mathlib.Core.Option.{Option, none, some}
use native.Mathlib.Omega.{arith}
use text.Mathlib.TextLemmas.{cons-append, nil-append, nil≢cons, tail-eq_of_cons-eq}
use pyfix_agent.Base.Tests.{nat_eq}
use pyfix_agent.Base.Text.{text_length}
use pyfix_agent.Base.Lines.{after_prefix}
use pyfix_agent.Base.Appending.{after_prefix-append}

abbrev cons_before : Char → Option (String × String) → Option (String × String)
cons_before c none = none
cons_before c (some (before, after)) = some (String.◌∷◌ c before, after)

-- What stands before and behind the first occurrence of a text.
unfoldable pub split_first : String → String → Option (String × String)
split_first needle String.[] = elim (after_prefix needle "") [
  | none ↦ none
  | some rest ↦ some ("", rest)
]
split_first needle (String.◌∷◌ c s) =
    let later = split_first needle s in
    elim (after_prefix needle (String.◌∷◌ c s)) [
      | none ↦ cons_before c later
      | some rest ↦ some ("", rest)
    ]

-- The rounds of `while True: index = text.find(needle, start)`, on the text from `start` on.
unfoldable pub occurrences_from : ℕ → ℕ → String → String → List ℕ
occurrences_from zero start needle s = []
occurrences_from (suc rounds) start needle s = elim (split_first needle s) [
  | none ↦ []
  | some (before, after) ↦
      let index = start + text_length before in
      index ∷ occurrences_from rounds (index + max 1 (text_length needle)) needle after
]

pub after_prefix_sound : (p s rest : String) → after_prefix p s ≡ some rest → s ≡ p <> rest
unfolding after_prefix
after_prefix_sound String.[] s rest h = ground (arith, nil-append rest)
after_prefix_sound (String.◌∷◌ p ps) String.[] rest h = absurd (cc)
after_prefix_sound (String.◌∷◌ p ps) (String.◌∷◌ c s) rest h =
    ground (arith, cons-append p ps rest, after_prefix_sound ps s rest, Char-path p c)

pub split_first_sound :
    (needle s before after : String)
    → split_first needle s ≡ some (before, after)
    → s ≡ before <> (needle <> after)
unfolding split_first
split_first_sound needle String.[] before after h =
    ground (arith, after_prefix_sound needle "" after, nil-append (needle <> after))
split_first_sound needle (String.◌∷◌ c s) before after h =
    found (after_prefix needle (String.◌∷◌ c s)) (split_first needle s) refl refl
      (split_first_sound needle s)
  where
    found :
        (o : Option String) (l : Option (String × String))
        → after_prefix needle (String.◌∷◌ c s) ≡ o
        → split_first needle s ≡ l
        → ((b a : String) → split_first needle s ≡ some (b, a) → s ≡ b <> (needle <> a))
        → String.◌∷◌ c s ≡ before <> (needle <> after)
    found (some rest) l p q ih = ground (
      arith,
      h,
      p,
      after_prefix_sound needle (String.◌∷◌ c s) rest p,
      nil-append (needle <> after),
    )
    found none none p q ih = absurd (ground (arith, h, p, q))
    found none (some (b, a)) p q ih =
        ground (arith, h, p, q, ih b a q, cons-append c b (needle <> after))

nothing_at_front : (needle s after : String) → split_first needle s ≡ none → ¬ (s ≡ needle <> after)
unfolding split_first
nothing_at_front needle String.[] after h e =
    absurd (ground (arith, h, ap (after_prefix needle) e, after_prefix-append needle after))
nothing_at_front needle (String.◌∷◌ c s) after h e =
    absurd (ground (arith, h, ap (after_prefix needle) e, after_prefix-append needle after))

-- Where nothing is found, the text does not occur.
pub split_first_nowhere :
    (needle s before after : String)
    → split_first needle s ≡ none
    → ¬ (s ≡ before <> (needle <> after))
unfolding split_first
split_first_nowhere needle s String.[] after h e =
    nothing_at_front needle s after h (e ∙ nil-append (needle <> after))
split_first_nowhere needle String.[] (String.◌∷◌ b before) after h e =
    absurd (nil≢cons (e ∙ cons-append b before (needle <> after)))
split_first_nowhere needle (String.◌∷◌ c s) (String.◌∷◌ b before) after h e =
    split_first_nowhere needle s before after (ground (arith, h))
      (tail-eq_of_cons-eq (e ∙ cons-append b before (needle <> after)))

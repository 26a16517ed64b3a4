-- ===== src/Base/Appending.antt =====
-- How the operations on texts of the modules beside this one act on an appended text.
use Prim.Native.Nat.{◌+◌}
use Prim.Native.String.{String, ◌++◌ as ◌<>◌}
use mathlib.Core.Path.{◌≡◌, refl, ap}
use text.Mathlib.TextLemmas.{cons-append, nil-append}
use native.Mathlib.Omega.{arith}
use pyfix_agent.Base.Tests.{nat_eq}
use pyfix_agent.Base.Text.{take_text, drop_text, text_length}
use pyfix_agent.Base.Lines.{forward_slashes, after_prefix, word_of, is_space}
use mathlib.Core.Option.{some}

pub forward_slashes-append :
    (s t : String) → forward_slashes (s <> t) ≡ forward_slashes s <> forward_slashes t
unfolding forward_slashes
forward_slashes-append String.[] t = rw (nil-append t, nil-append (forward_slashes t)) refl
forward_slashes-append (String.◌∷◌ c s) t = simp (cons-append, forward_slashes-append s t)

pub drop_text-append : (s t : String) → drop_text (text_length s) (s <> t) ≡ t
unfolding drop_text text_length
drop_text-append String.[] t = nil-append t
drop_text-append (String.◌∷◌ c s) t = simp (cons-append, drop_text-append s t)

pub take_text-append : (s t : String) → take_text (text_length s) (s <> t) ≡ s
unfolding take_text text_length
take_text-append String.[] t = refl
take_text-append (String.◌∷◌ c s) t = simp (cons-append, take_text-append s t)

pub text_length-append : (s t : String) → text_length (s <> t) ≡ text_length s + text_length t
unfolding text_length
text_length-append String.[] t = rw (nil-append t) (omega arith)
text_length-append (String.◌∷◌ c s) t =
    rw (cons-append c s t) (omega (arith, text_length-append s t))

pub after_prefix-append : (s t : String) → after_prefix s (s <> t) ≡ some t
unfolding after_prefix
after_prefix-append String.[] t = ap some (nil-append t)
after_prefix-append (String.◌∷◌ c s) t =
    rw (cons-append c s t) (ground (arith, after_prefix-append s t))

-- The first word of a text that goes on with a space.
pub word_of-append : (s t : String) → word_of s ≡ s → word_of (s <> (" " <> t)) ≡ s
unfolding word_of is_space
word_of-append String.[] t h = rw (nil-append (" " <> t), cons-append _ "" t) refl
word_of-append (String.◌∷◌ c s) t h =
    rw (cons-append c s (" " <> t)) (ground (arith, h, word_of-append s t))

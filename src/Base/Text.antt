-- ===== src/Base/Text.antt =====
-- Python's operations on `str` that the program uses, over the native texts.
use Prim.Native.Char.{Char, code}
use Prim.Native.Nat.{ℕ, zero, suc, ◌-◌, ◌/◌, ◌%◌}
use Prim.Native.String.{String, char_at, ◌++◌ as ◌<>◌}
use mathlib.Core.Path.{◌≡◌, refl}
use mathlib.Core.Bool.{Bool, true, false, ◌&&◌, ◌||◌}
use mathlib.Core.List.{List, [], ◌∷◌}
use mathlib.Core.Option.{Option, none, some}
use text.Mathlib.Text.{find?}
use pyfix_agent.Base.Tests.{leb, ◌==◌, nat_eq, string_eq, if◌then◌else◌}
pub use text.Mathlib.Text.{starts_with}

-- `bool(s)`
abbrev pub truthy : String → Bool
truthy String.[] = false
truthy (String.◌∷◌ c s) = true

-- `s or t`
abbrev pub or_text : String → String → String
or_text String.[] t = t
or_text (String.◌∷◌ c s) t = String.◌∷◌ c s

-- `bool(o)` and `o or t` for `o : str | None`
abbrev pub truthy? : Option String → Bool
truthy? none = false
truthy? (some s) = truthy s

abbrev pub or_text? : Option String → String → String
or_text? none t = t
or_text? (some s) t = or_text s t

-- `sep.join(parts)`
unfoldable pub join : String → List String → String
join sep [] = ""
join sep (x ∷ []) = x
join sep (x ∷ (y ∷ xs)) = x <> sep <> join sep (y ∷ xs)

-- `needle in text`
unfoldable pub in_text : String → String → Bool
in_text needle text = elim (find? text needle) [ none ↦ false | some i ↦ true ]

-- `s.lower()`, on the letters of ASCII.
lower_char : Char → Char
lower_char c =
    if leb 65 (code c) && leb (code c) 90
    then char_at "abcdefghijklmnopqrstuvwxyz" (code c - 65)
    else c

unfoldable pub lower : String → String
unfolding lower_char
lower String.[] = ""
lower (String.◌∷◌ c s) = String.◌∷◌ (lower_char c) (lower s)

-- `str(n)` for a natural: the last digit, behind those of the quotient by ten.
digit : ℕ → String
digit n =
    if n == 0
    then "0"
    else if n == 1
    then "1"
    else if n == 2
    then "2"
    else if n == 3
    then "3"
    else if n == 4
    then "4"
    else if n == 5
    then "5"
    else if n == 6
    then "6"
    else if n == 7
    then "7"
    else if n == 8
    then "8"
    else "9"

digits : ℕ → ℕ → String
digits zero n = ""
digits (suc fuel) n =
    let front = digits fuel (n / 10) in if leb 10 n then front <> digit (n % 10) else digit n

-- A number has at most as many digits as its value, plus one.
unfoldable pub show : ℕ → String
unfolding digits digit
show n = digits (suc n) n

show_test : (show 1024 ≡ "1024") × (lower "Old Text 3" ≡ "old text 3")
unfolding show lower
show_test = (refl, refl)

-- `s[:n]`
unfoldable pub take_text : ℕ → String → String
take_text zero s = ""
take_text (suc n) String.[] = ""
take_text (suc n) (String.◌∷◌ c s) = String.◌∷◌ c (take_text n s)

-- `len(s)`
unfoldable pub text_length : String → ℕ
text_length String.[] = 0
text_length (String.◌∷◌ c s) = suc (text_length s)

-- `s[n:]`
unfoldable pub drop_text : ℕ → String → String
drop_text zero s = s
drop_text (suc n) String.[] = ""
drop_text (suc n) (String.◌∷◌ c s) = drop_text n s

-- `s.startswith(prefixes)` for a tuple of prefixes
abbrev pub starts_any : String → List String → Bool
starts_any s [] = false
starts_any s (p ∷ ps) = starts_with s p || starts_any s ps

-- `s.endswith(suffix)`
unfoldable pub ends_with : String → String → Bool
ends_with String.[] suffix = "" == suffix
ends_with (String.◌∷◌ c s) suffix =
    let later = ends_with s suffix in if String.◌∷◌ c s == suffix then true else later

-- ===== src/Base/Lines.antt =====
-- Lines and white space of Python's `str`, and the pieces of the regular expressions that the
-- program matches: digits and word characters are those of ASCII.
use Prim.Native.Char.{Char, code}
use Prim.Native.Nat.{ℕ, ◌+◌, ◌-◌, ◌*◌}
use Prim.Native.String.{String, ◌++◌ as ◌<>◌}
use mathlib.Core.Path.{◌≡◌, refl}
use mathlib.Core.Bool.{Bool, true, false, not, ◌&&◌, ◌||◌}
use mathlib.Core.List.{List, [], ◌∷◌}
use mathlib.Core.Option.{Option, none, some}
use pyfix_agent.Base.Tests.{leb, ◌==◌, nat_eq, string_eq, if◌then◌else◌}

between : ℕ → ℕ → ℕ → Bool
between lo hi n = leb lo n && leb n hi

-- `str.isspace` of one character
unfoldable pub is_space : Char → Bool
unfolding between
is_space c =
    let n = code c in
    between 9 13 n
    || between 28 32 n
    || n == 133
    || n == 160
    || n == 5760
    || between 8192 8202 n
    || between 8232 8233 n
    || n == 8239
    || n == 8287
    || n == 12288

unfoldable pub is_digit : Char → Bool
unfolding between
is_digit c = between 48 57 (code c)

unfoldable pub is_word : Char → Bool
unfolding between is_digit
is_word c = is_digit c || between 65 90 (code c) || between 97 122 (code c) || code c == 95

-- `s.lstrip()`, `s.rstrip()` and `s.strip()`
unfoldable pub lstrip : String → String
unfolding is_space
lstrip String.[] = ""
lstrip (String.◌∷◌ c s) = let rest = lstrip s in if is_space c then rest else String.◌∷◌ c s

unfoldable pub rstrip : String → String
unfolding is_space
rstrip String.[] = ""
rstrip (String.◌∷◌ c s) = elim (rstrip s) [
  | String.[] ↦ if is_space c then "" else String.◌∷◌ c ""
  | String.◌∷◌ d r ↦ String.◌∷◌ c (String.◌∷◌ d r)
]

unfoldable pub strip : String → String
unfolding lstrip rstrip
strip s = rstrip (lstrip s)

-- The line boundaries of `splitlines`.
is_break : Char → Bool
unfolding between
is_break c = let n = code c in between 10 13 n || between 28 30 n || n == 133 || between 8232 8233 n

pub data Piece : Type 0 where
  joined broken plain : Piece

-- A line feed behind a carriage return belongs to the break before it.
piece : Bool → Char → Piece
unfolding is_break
piece after_return c =
    if after_return && code c == 10 then joined else if is_break c then broken else plain

-- The rest of a text, from inside a line that began with `line`; `opened` says that the line has
-- begun, so that it counts at the end of the text.
lines_from : Bool → Bool → String → String → List String
lines_from after_return opened line String.[] = if opened then line ∷ [] else []
lines_from after_return opened line (String.◌∷◌ c s) = elim (piece after_return c) [
  | joined ↦ lines_from false false "" s
  | broken ↦ line ∷ lines_from (code c == 13) false "" s
  | plain ↦ lines_from false true (line <> String.◌∷◌ c "") s
]

unfoldable pub splitlines : String → List String
unfolding lines_from piece
splitlines s = lines_from false false "" s

splitlines_test : splitlines "a\n\nb\r\nc" ≡ "a" ∷ "" ∷ "b" ∷ "c" ∷ []
unfolding splitlines
splitlines_test = refl

-- What is left of a text behind a literal.
unfoldable pub after_prefix : String → String → Option String
after_prefix String.[] s = some s
after_prefix (String.◌∷◌ p ps) String.[] = none
after_prefix (String.◌∷◌ p ps) (String.◌∷◌ c s) =
    let rest = after_prefix ps s in if code p == code c then rest else none

-- `\s+`
unfoldable pub after_spaces : String → Option String
unfolding lstrip
after_spaces String.[] = none
after_spaces (String.◌∷◌ c s) = if is_space c then some (lstrip s) else none

-- `\d+`, read as a number: the digits before have the value given.
digits_from : ℕ → String → ℕ × String
digits_from n String.[] = (n, "")
digits_from n (String.◌∷◌ c s) =
    let rest = digits_from (n * 10 + (code c - 48)) s in
    if is_digit c then rest else (n, String.◌∷◌ c s)

unfoldable pub after_number : String → Option (ℕ × String)
unfolding digits_from is_digit
after_number String.[] = none
after_number (String.◌∷◌ c s) = if is_digit c then some (digits_from (code c - 48) s) else none

-- `\S+`, or what there is of it
unfoldable pub word_of : String → String
unfolding is_space
word_of String.[] = ""
word_of (String.◌∷◌ c s) = let rest = word_of s in if is_space c then "" else String.◌∷◌ c rest

-- `\b` behind a word character
unfoldable pub at_word_end : String → Bool
unfolding is_word
at_word_end String.[] = true
at_word_end (String.◌∷◌ c s) = not (is_word c)

-- `s.replace("\\", "/")`
unfoldable pub forward_slashes : String → String
forward_slashes String.[] = ""
forward_slashes (String.◌∷◌ c s) = String.◌∷◌ (if code c == 92 then "/" else c) (forward_slashes s)

-- What is left of a text behind the first occurrence of a literal.
unfoldable pub after_first : String → String → Option String
after_first needle String.[] = after_prefix needle ""
after_first needle (String.◌∷◌ c s) =
    let later = after_first needle s in
    elim (after_prefix needle (String.◌∷◌ c s)) [ none ↦ later | some rest ↦ some rest ]

-- `s.split()`, behind a word that began with `word`
words_from : String → String → List String
unfolding is_space
words_from word String.[] = if word == "" then [] else word ∷ []
words_from word (String.◌∷◌ c s) = elim (is_space c) [
  | true ↦ let rest = words_from "" s in if word == "" then rest else word ∷ rest
  | false ↦ words_from (word <> String.◌∷◌ c "") s
]

unfoldable pub split_words : String → List String
unfolding words_from
split_words s = words_from "" s

split_words_test : split_words " a  bc d " ≡ "a" ∷ "bc" ∷ "d" ∷ []
unfolding split_words
split_words_test = refl

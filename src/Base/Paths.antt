-- ===== src/Base/Paths.antt =====
-- What the program uses of `pathlib` on POSIX, on texts: the components of a path, its last one, and
-- its suffix as Python 3.11 to 3.13 read it.
use Prim.Native.Char.{Char, code}
use Prim.Native.String.{String, ◌++◌ as ◌<>◌}
use mathlib.Core.Path.{◌≡◌, refl}
use mathlib.Core.Bool.{Bool, true, false, not, ◌&&◌}
use mathlib.Core.List.{List, [], ◌∷◌}
use mathlib.Core.Option.{Option, none, some}
use pyfix_agent.Base.Tests.{◌==◌, nat_eq, string_eq, if◌then◌else◌}
use pyfix_agent.Base.Lists.{keep}
use pyfix_agent.Base.Text.{truthy, starts_with, join}

abbrev is_slash : Char → Bool
is_slash c = code c == 47

-- `s.split("/")`, behind a first piece that began with `piece`
split_from : String → String → List String
split_from piece String.[] = piece ∷ []
split_from piece (String.◌∷◌ c s) = elim (is_slash c) [
  | true ↦ piece ∷ split_from "" s
  | false ↦ split_from (piece <> String.◌∷◌ c "") s
]

unfoldable pub split_slash : String → List String
unfolding split_from
split_slash s = split_from "" s

-- `s.strip("/")`
unfoldable pub lstrip_slashes : String → String
lstrip_slashes String.[] = ""
lstrip_slashes (String.◌∷◌ c s) =
    let rest = lstrip_slashes s in if is_slash c then rest else String.◌∷◌ c s

unfoldable pub rstrip_slashes : String → String
rstrip_slashes String.[] = ""
rstrip_slashes (String.◌∷◌ c s) = elim (rstrip_slashes s) [
  | String.[] ↦ if is_slash c then "" else String.◌∷◌ c ""
  | String.◌∷◌ d r ↦ String.◌∷◌ c (String.◌∷◌ d r)
]

unfoldable pub strip_slashes : String → String
unfolding lstrip_slashes rstrip_slashes
strip_slashes s = rstrip_slashes (lstrip_slashes s)

-- `PurePosixPath(s).is_absolute()`
abbrev pub is_absolute : String → Bool
is_absolute s = starts_with s "/"

abbrev is_component : String → Bool
is_component part = truthy part && not (part == ".")

-- `PurePosixPath(s).parts`
unfoldable pub path_parts : String → List String
unfolding split_slash
path_parts s =
    let components = keep is_component (split_slash s) in
    if is_absolute s then "/" ∷ components else components

unfoldable pub path_name : List String → String
path_name [] = ""
path_name (part ∷ []) = if part == "/" then "" else part
path_name (part ∷ (next ∷ parts)) = path_name (next ∷ parts)

-- A text before and behind its last dot.
unfoldable pub at_last_dot : String → Option (String × String)
at_last_dot String.[] = none
at_last_dot (String.◌∷◌ c s) = elim (at_last_dot s) [
  | some (before, after) ↦ some (String.◌∷◌ c before, after)
  | none ↦ if code c == 46 then some ("", s) else none
]

abbrev dotted : Option (String × String) → String
dotted none = ""
dotted (some (before, after)) = if truthy before && truthy after then "." <> after else ""

-- `PurePosixPath(s).suffix`, of its parts
unfoldable pub path_suffix : List String → String
unfolding path_name at_last_dot
path_suffix parts = dotted (at_last_dot (path_name parts))

-- `path.parent`, of its parts
unfoldable pub parent : List String → List String
parent [] = []
parent (part ∷ []) = if part == "/" then "/" ∷ [] else []
parent (part ∷ (next ∷ parts)) = part ∷ parent (next ∷ parts)

-- `path.stem`, of its parts
unfoldable pub path_stem : List String → String
unfolding path_name at_last_dot
path_stem parts = elim (at_last_dot (path_name parts)) [
  | none ↦ path_name parts
  | some (before, after) ↦ if truthy before && truthy after then before else path_name parts
]

-- `target.relative_to(root)`, as the parts behind it
unfoldable pub relative_to : List String → List String → Option (List String)
relative_to [] target = some target
relative_to (w ∷ root) [] = none
relative_to (w ∷ root) (t ∷ target) =
    let rest = relative_to root target in if w == t then rest else none

-- `.as_posix()`, of the parts
abbrev pub as_posix : List String → String
as_posix [] = "."
as_posix (part ∷ parts) = if part == "/" then "/" <> join "/" parts else join "/" (part ∷ parts)

path_test :
    (path_parts "src//./a.b.py" ≡ "src" ∷ "a.b.py" ∷ [])
    × (path_suffix ("src" ∷ "a.b.py" ∷ []) ≡ ".py")
    × (path_suffix (".py" ∷ []) ≡ "")
    × (path_stem ("src" ∷ "a.b.py" ∷ []) ≡ "a.b")
    × (parent ("src" ∷ "a.py" ∷ []) ≡ "src" ∷ [])
    × (strip_slashes "//a/b/" ≡ "a/b")
unfolding path_parts path_suffix path_stem parent strip_slashes
path_test = (refl, refl, refl, refl, refl, refl)

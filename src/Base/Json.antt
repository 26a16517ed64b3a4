-- ===== src/Base/Json.antt =====
-- A value of Python's `json`: what `json.loads` gives, and how the program reads it.
use Prim.Native.String.{String}
use mathlib.Core.Bool.{Bool, true, false}
use mathlib.Core.List.{List, [], ◌∷◌}
use mathlib.Core.Option.{Option, none, some}
use pyfix_agent.Base.Tests.{◌==◌, string_eq, nat_eq, if◌then◌else◌}
use pyfix_agent.Base.Text.{truthy}
use pyfix_agent.Base.Int.{ℤ, pos, negsuc}

-- A float is the text of its number, with the truth value that it has.
mutual
  pub data Json : Type 0 where
    null : Json
    boolean : Bool → Json
    integer : ℤ → Json
    float : String → Bool → Json
    text : String → Json
    array : Elements → Json
    object : Members → Json

  pub data Elements : Type 0 where
    nil : Elements
    cons : Json → Elements → Elements

  pub data Members : Type 0 where
    done : Members
    member : String → Json → Members → Members

abbrev pub elements : Elements → List Json
elements nil = []
elements (cons v vs) = v ∷ elements vs

-- `d.get(key)`, with none for a key that is missing
unfoldable pub lookup : String → Members → Option Json
lookup key done = none
lookup key (member k v ms) = let rest = lookup key ms in if k == key then some v else rest

-- `d.get(key, default)`
abbrev pub get_or : String → Json → Members → Json
get_or key default ms = elim (lookup key ms) [ none ↦ default | some v ↦ v ]

abbrev pub get : String → Members → Json
get key ms = get_or key null ms

-- `bool(v)`
abbrev pub truthy_json : Json → Bool
truthy_json null = false
truthy_json (boolean b) = b
truthy_json (integer (pos n)) = if n == 0 then false else true
truthy_json (integer (negsuc n)) = true
truthy_json (float s b) = b
truthy_json (text s) = truthy s
truthy_json (array nil) = false
truthy_json (array (cons v vs)) = true
truthy_json (object done) = false
truthy_json (object (member k v ms)) = true

-- `v` where `isinstance(v, int)`: a bool is an int too.
abbrev pub int_of : Json → Option ℤ
int_of (integer n) = some n
int_of (boolean true) = some (pos 1)
int_of (boolean false) = some (pos 0)
int_of other = none

abbrev pub is_null : Json → Bool
is_null null = true
is_null other = false

-- ===== src/Json.antt =====
-- The values that JSON.parse returns and the numbers of the language, as the readers of untrusted
-- input take them: frontend/src/lib/viewState.ts, colormap.ts and paraviewPreset.ts. An array is a
-- list of values, an object a list of named values; numbers are of a type `N`, of which the
-- operators are the fields of `JsNumbers`.
pub mod Steps
use Prim.Native.String.{String}
use my_paraview_web.Common.{
  ℕ, Bool, true, false, Option, none, some, List, [], ◌∷◌, all, any, not, if◌then◌else◌,
}
use my_paraview_web.Common.Eq.{Text, ◌===◌, String_eq}
use my_paraview_web.Common.Int.{ℤ}

mutual
  pub data Value (N : Type 0) : Type 0 where
    undefined null : Value N
    boolean : Bool → Value N
    number : N → Value N
    text : Text → Value N
    array : Values N → Value N
    object : Members N → Value N

  pub data Values (N : Type 0) : Type 0 where
    no_values : Values N
    value_then : Value N → Values N → Values N

  pub data Members (N : Type 0) : Type 0 where
    no_members : Members N
    member : String → Value N → Members N → Members N

pub record JsNumbers (N : Type 0) : Type 0 where
  -- `Number.isFinite`, `<`, `<=` and `===`
  pub is_finite : N → Bool
  pub less : N → N → Bool
  pub at_most : N → N → Bool
  pub equal : N → N → Bool
  -- the integer of a number that `Number.isInteger` accepts
  pub integer_of : N → Option ℤ
  -- the literals of the source
  pub literal : ℕ → N

module _ {N : Type 0} where
  abbrev pub items : Values N → List (Value N)
  items no_values = []
  items (value_then v vs) = v ∷ items vs

  abbrev pub as_values : List (Value N) → Values N
  as_values [] = no_values
  as_values (v ∷ vs) = value_then v (as_values vs)

  abbrev pub member_of : Members N → String → Value N
  member_of no_members key = undefined
  member_of (member k v rest) key = if k === key then v else member_of rest key

  -- `value[key]` of an object; an array has none of the names that are read.
  abbrev pub property : Value N → String → Value N
  property (object m) key = member_of m key
  property _ key = undefined

  -- `value && typeof value === "object"`
  abbrev pub is_object : Value N → Bool
  is_object (array _) = true
  is_object (object _) = true
  is_object _ = false

  -- `Object.keys(value).every((key) => allowed.includes(key))` of an object
  abbrev pub has_only : Members N → List String → Bool
  has_only no_members allowed = true
  has_only (member k _ rest) allowed =
      if any (λ a. a === k) allowed then has_only rest allowed else false

  abbrev pub text_of : Value N → Option Text
  text_of (text t) = some t
  text_of _ = none

  abbrev pub boolean_of : Value N → Option Bool
  boolean_of (boolean b) = some b
  boolean_of _ = none

  abbrev pub number_of : Value N → Option N
  number_of (number n) = some n
  number_of _ = none

  -- `Array.isArray`
  abbrev pub array_of : Value N → Option (List (Value N))
  array_of (array vs) = some (items vs)
  array_of _ = none

  abbrev pub is_undefined : Value N → Bool
  is_undefined undefined = true
  is_undefined _ = false

  abbrev pub is_null : Value N → Bool
  is_null null = true
  is_null _ = false

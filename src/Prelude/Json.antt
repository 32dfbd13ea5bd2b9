-- ===== src/Prelude/Json.antt =====
-- JSON-like values: the `map[string]interface{}` trees that rules are evaluated against.
use Prim.Native.Nat.{ℕ}
use Prim.Native.String.{String}
use mathlib.Core.Bool.{Bool}
use mathlib.Core.List.{List, [], ◌∷◌}
use text.Mathlib.Text.{◌==◌}
use maybe_dont.Prelude.Tests.{if◌then◌else◌}

mutual
  pub data Value : Type 0 where
    null : Value
    bool : Bool → Value
    num : ℕ → Value
    str : String → Value
    array : Elements → Value
    object : Members → Value

  pub data Members : Type 0 where
    no_members : Members
    field : String → Value → Members → Members

  pub data Elements : Type 0 where
    no_elements : Elements
    element : Value → Elements → Elements

-- A `[]string` as a value.
abbrev pub strings : List String → Elements
strings [] = no_elements
strings (s ∷ ss) = element (str s) (strings ss)

-- `m[k] = v` on a Go map.
unfoldable pub put : String → Value → Members → Members
put k v no_members = field k v no_members
put k v (field j w fs) = let rest = put k v fs in if j == k then field k v fs else field j w rest

abbrev pub keys : Members → List String
keys no_members = []
keys (field k v fs) = k ∷ keys fs

abbrev pub values : Members → List Value
values no_members = []
values (field k v fs) = v ∷ values fs

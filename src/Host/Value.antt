-- ===== src/Host/Value.antt =====
-- JSON values as Python holds them, and the built-in tests on them.
pub mod Equality
use fs_quint.Base.{
  ℤ, pos, Bool, true, false, not, ◌&&◌, List, [], ◌∷◌, Option, none, some, [], eqb_ℤ, if◌then◌else◌,
}
use fs_quint.Base.Text.{Text, codes, same}
use fs_quint.Base.Text.Decimal.{show_int}

-- A float keeps its text, its value cut to an integer, and whether that is its value.
mutual
  pub data Json : Type 0 where
    null : Json
    bool : Bool → Json
    int : ℤ → Json
    float : Text → ℤ → Bool → Json
    str : Text → Json
    arr : Items → Json
    obj : Fields → Json

  pub data Items : Type 0 where
    nil : Items
    cons : Json → Items → Items

  pub data Fields : Type 0 where
    end : Fields
    field : Text → Json → Fields → Fields

-- `bool(value)`
unfoldable pub truthy : Json → Bool
truthy null = false
truthy (bool b) = b
truthy (int n) = not (eqb_ℤ n (pos 0))
truthy (float t n exact) = not (exact && eqb_ℤ n (pos 0))
truthy (str []) = false
truthy (arr nil) = false
truthy (obj end) = false
truthy _ = true

-- `fields.get(key)`
unfoldable pub get : Text → Fields → Option Json
unfolding same
get k end = none
get k (field j v rest) = let later = get k rest in if same j k then some v else later

-- `fields.get(key)` where a missing key reads as `None`.
unfoldable pub get_or_null : Text → Fields → Json
unfolding get
get_or_null k fs = elim (get k fs) [ none ↦ null | some v ↦ v ]

-- A Python value for which `isinstance(value, int)` holds: `bool` is a subclass of `int`.
pub data Number : Type 0 where
  integer : ℤ → Number
  boolean : Bool → Number

unfoldable pub as_number : Json → Option Number
as_number (int n) = some (integer n)
as_number (bool b) = some (boolean b)
as_number _ = none

-- The number that it counts as, and `str(value)`.
unfoldable pub amount : Number → ℤ
amount (integer n) = n
amount (boolean b) = if b then pos 1 else pos 0

unfoldable pub show_number : Number → Text
unfolding show_int
show_number (integer n) = show_int n
show_number (boolean b) = if b then codes "True" else codes "False"

unfoldable pub as_text : Json → Option Text
as_text (str s) = some s
as_text _ = none

-- `value == text` and `value == True`: the numbers one and 1.0 are equal to `True`.
unfoldable pub is_text : Text → Json → Bool
unfolding same
is_text t (str s) = same s t
is_text t _ = false

unfoldable pub is_true : Json → Bool
is_true (bool b) = b
is_true (int n) = eqb_ℤ n (pos 1)
is_true (float t n exact) = exact && eqb_ℤ n (pos 1)
is_true _ = false

unfoldable pub items : Items → List Json
items nil = []
items (cons v vs) = v ∷ items vs

unfoldable pub keys : Fields → List Text
keys end = []
keys (field k v fs) = k ∷ keys fs

-- ===== src/Host/Value/Equality.antt =====
-- Python's `==` on JSON values: numbers by value, `bool` among them, and dictionaries in any order.
use fs_quint.Base.{
  ℕ, ◌+◌, ℤ, pos, Bool, true, false, ◌&&◌, ◌||◌, ◌==◌, Option, none, some, List, [], ◌∷◌, eqb_ℤ,
  if◌then◌else◌,
}
use fs_quint.Base.Text.{Text, same}
use fs_quint.Host.Value.{
  Json, null, bool, int, float, str, arr, obj, Items, nil, cons, Fields, end, field, get,
}

-- `value == n`
unfoldable pub is_number : ℤ → Json → Bool
is_number n (bool b) = eqb_ℤ n (if b then pos 1 else pos 0)
is_number n (int m) = eqb_ℤ n m
is_number n (float t m exact) = exact && eqb_ℤ n m
is_number n _ = false

-- Floats with another text are equal where both are the same integer.
same_float : Text → ℤ → Bool → Json → Bool
unfolding same is_number
same_float t n exact (float u m whole) = same t u || (exact && whole && eqb_ℤ n m)
same_float t n exact v = exact && is_number n v

is_null : Json → Bool
is_null null = true
is_null _ = false

is_str : Text → Json → Bool
unfolding same
is_str s (str t) = same s t
is_str s _ = false

fields_count : Fields → ℕ
fields_count end = 0
fields_count (field k v fs) = fields_count fs + 1

holds : (Json → Bool) → Option Json → Bool
holds p none = false
holds p (some v) = p v

on_items : (Items → Bool) → Json → Bool
on_items p (arr xs) = p xs
on_items p _ = false

on_fields : (Fields → Bool) → Json → Bool
on_fields p (obj fs) = p fs
on_fields p _ = false

on_cons : (Json → Bool) → (Items → Bool) → Items → Bool
on_cons p q nil = false
on_cons p q (cons v vs) = p v && q vs

is_nil : Items → Bool
is_nil nil = true
is_nil _ = false

unfoldable mutual
  unfolding is_null is_number same_float is_str on_items on_fields fields_count is_nil on_cons holds
      get

  pub same_json : Json → Json → Bool
  same_json null = is_null
  same_json (bool b) = is_number (if b then pos 1 else pos 0)
  same_json (int n) = is_number n
  same_json (float t n exact) = same_float t n exact
  same_json (str s) = is_str s
  same_json (arr xs) = on_items (same_items xs)
  same_json (obj fs) = on_fields (λ gs. fields_count fs == fields_count gs && within fs gs)

  same_items : Items → Items → Bool
  same_items nil = is_nil
  same_items (cons v vs) = on_cons (same_json v) (same_items vs)

  -- Every entry is one of the other dictionary too.
  within : Fields → Fields → Bool
  within end = λ gs. true
  within (field k v fs) = λ gs. holds (same_json v) (get k gs) && within fs gs

unfoldable pub same_list : List Json → List Json → Bool
unfolding same_json
same_list [] [] = true
same_list (v ∷ vs) (u ∷ us) = same_json v u && same_list vs us
same_list _ _ = false

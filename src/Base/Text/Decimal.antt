-- ===== src/Base/Text/Decimal.antt =====
-- Python's `int(text)` and `str(number)`.
use Prim.Native.Nat.{ℕ, zero, suc, ◌+◌, ◌-◌, ◌*◌, ◌/◌, ◌%◌, ◌<◌}
use mathlib.Core.Path.{◌≡◌, refl, ap, sym, ◌∙◌}
use mathlib.Core.Logic.{inl, inr}
use mathlib.Core.Bool.{Bool, true, false, ◌&&◌}
use mathlib.Core.Option
use mathlib.Core.Option.{Option, none, some}
use mathlib.Core.List.{List, [], ◌∷◌, ◌++◌}
use native.Mathlib.Omega.{arith}
use fs_quint.Base.Tests.{ltb, leb, ◌==◌, if◌then◌else◌, Bool-cases}
use fs_quint.Base.Int.{ℤ, pos, negsuc, sub_ℕ}
use fs_quint.Base.Text.{Text, strip}

-- The zeros of the runs of ten decimal digits, ASCII's first (Unicode 14.0.0).
abbrev digit_zeros : List ℕ
digit_zeros =
    b'0' ∷ 0x660 ∷ 0x6f0 ∷ 0x7c0 ∷ 0x966 ∷ 0x9e6 ∷ 0xa66 ∷ 0xae6 ∷ 0xb66 ∷ 0xbe6 ∷ 0xc66 ∷ 0xce6
    ∷ 0xd66 ∷ 0xde6 ∷ 0xe50 ∷ 0xed0 ∷ 0xf20 ∷ 0x1040 ∷ 0x1090 ∷ 0x17e0 ∷ 0x1810 ∷ 0x1946 ∷ 0x19d0
    ∷ 0x1a80 ∷ 0x1a90 ∷ 0x1b50 ∷ 0x1bb0 ∷ 0x1c40 ∷ 0x1c50 ∷ 0xa620 ∷ 0xa8d0 ∷ 0xa900 ∷ 0xa9d0
    ∷ 0xa9f0 ∷ 0xaa50 ∷ 0xabf0 ∷ 0xff10 ∷ 0x104a0 ∷ 0x10d30 ∷ 0x11066 ∷ 0x110f0 ∷ 0x11136 ∷ 0x111d0
    ∷ 0x112f0 ∷ 0x11450 ∷ 0x114d0 ∷ 0x11650 ∷ 0x116c0 ∷ 0x11730 ∷ 0x118e0 ∷ 0x11950 ∷ 0x11c50
    ∷ 0x11d50 ∷ 0x11da0 ∷ 0x16a60 ∷ 0x16ac0 ∷ 0x16b50 ∷ 0x1d7ce ∷ 0x1d7d8 ∷ 0x1d7e2 ∷ 0x1d7ec
    ∷ 0x1d7f6 ∷ 0x1e140 ∷ 0x1e2f0 ∷ 0x1e950 ∷ 0x1fbf0 ∷ []

digit_from : List ℕ → ℕ → Option ℕ
digit_from [] c = none
digit_from (z ∷ zs) c =
    let rest = digit_from zs c in if leb z c && ltb c (z + 10) then some (c - z) else rest

unfoldable pub digit_of : ℕ → Option ℕ
unfolding digit_from
digit_of c = digit_from digit_zeros c

-- Digits, with single underscores between them. The flag tells that a digit stands in front.
unfoldable pub digits_value : ℕ → Bool → Text → Option ℕ
digits_value n last [] = if last then some n else none
digits_value n last (c ∷ s) = elim (digit_of c) [
  | some d ↦ digits_value (n * 10 + d) true s
  | none ↦ let rest = digits_value n false s in if c == b'_' && last then rest else none
]

count_digits : Text → ℕ
count_digits [] = 0
count_digits (c ∷ s) = elim (digit_of c) [ some d ↦ suc (count_digits s) | none ↦ count_digits s ]

-- `sys.int_info.default_max_str_digits`
abbrev max_str_digits : ℕ
max_str_digits = 4300

unsigned : Text → Option ℕ
unfolding count_digits digits_value digit_of
unsigned s = if leb (count_digits s) max_str_digits then digits_value 0 false s else none

signed : Text → Option ℤ
unfolding unsigned
signed [] = none
signed (c ∷ s) =
    if c == b'-'
    then Option.map (sub_ℕ 0) (unsigned s)
    else if c == b'+'
    then Option.map pos (unsigned s)
    else Option.map pos (unsigned (c ∷ s))

-- `int(s)`; `none` is the `ValueError`.
unfoldable pub int_of : Text → Option ℤ
unfolding signed strip
int_of s = signed (strip s)

-- Fuel above the number is enough (`read-show_nat`).
show_fuel : ℕ → ℕ → Text
show_fuel zero n = []
show_fuel (suc f) n =
    let front = show_fuel f (n / 10) in
    if ltb n 10 then (n + 48) ∷ [] else front ++ ((n % 10 + 48) ∷ [])

unfoldable pub show_nat : ℕ → Text
unfolding show_fuel
show_nat n = show_fuel (suc n) n

-- `str(n)`
unfoldable pub show_int : ℤ → Text
unfolding show_nat
show_int (pos n) = show_nat n
show_int (negsuc n) = b'-' ∷ show_nat (suc n)

-- The value of a run of ASCII digits.
value : ℕ → Text → ℕ
value n [] = n
value n (c ∷ s) = value (n * 10 + (c - 48)) s

value-append : (n : ℕ) (s : Text) (d : ℕ) → value n (s ++ (d ∷ [])) ≡ value n s * 10 + (d - 48)
unfolding value
value-append n [] d = refl
value-append n (c ∷ s) d = value-append (n * 10 + (c - 48)) s d

value-show_fuel : (f n : ℕ) → n < f → value 0 (show_fuel f n) ≡ n
unfolding show_fuel value
value-show_fuel zero n h = elim h [ ]
value-show_fuel (suc f) n h = elim (Bool-cases (ltb n 10)) [
  | inl small ↦ rw small (ground arith)
  | inr big ↦
      rw (big, value-append 0 (show_fuel f (n / 10)) (n % 10 + 48))
        (ground (arith, value-show_fuel f (n / 10) (ground arith)))
]

-- Two numbers with the same decimal text are the same.
pub show_nat-injective : (m n : ℕ) → show_nat m ≡ show_nat n → m ≡ n
unfolding show_nat
show_nat-injective m n h =
    sym (value-show_fuel (suc m) m (omega arith))
    ∙ ap (value 0) h
    ∙ value-show_fuel (suc n) n (omega arith)

-- ===== src/Claim/Verdict/Items.antt =====
-- The item that a branch delivers, as `item_args` reads it.
use fs_quint.Base.{ℤ, ◌≡◌, ap, inl, inr, Option, some, none, arith, Option-cases}
use fs_quint.Base.Text.{Text}
use fs_quint.Base.Text.Decimal.{int_of}
use fs_quint.Host.{value}
use fs_quint.Claim.Shape.{item_branch}
use fs_quint.Claim.Verdict.{Args, Options, args_for, item_args}

pub item_args-some :
    (o : Options) (ref sha digits : Text) (m : Option Args)
    → item_branch ref ≡ some digits
    → item_args o ref sha ≡ value m
    → (n : ℤ) × (int_of digits ≡ some n) × (m ≡ some (args_for o ref sha n))
unfolding item_args
item_args-some o ref sha digits m b h = elim (Option-cases (int_of digits)) [
  | inl e ↦ absurd (ground arith)
  | inr (n, e) ↦ (n, e, ground arith)
]

some-injective : (a b : Args) → some a ≡ some b → a ≡ b
some-injective a b e = ap (λ o. elim o [ some x ↦ x | none ↦ a ]) e

-- The item of a branch, with its number.
pub record IsItem (o : Options) (ref sha : Text) (a : Args) : Type 0 where
  pub digits : Text
  pub branch : item_branch ref ≡ some digits
  pub number : ℤ
  pub numbered : int_of digits ≡ some number
  pub item : a ≡ args_for o ref sha number

pub item_args-IsItem :
    (o : Options) (ref sha : Text) (a : Args)
    → item_args o ref sha ≡ value (some a)
    → IsItem o ref sha a
unfolding item_args
item_args-IsItem o ref sha a h = elim (Option-cases (item_branch ref)) [
  | inl e ↦ absurd (ground (arith, h, e))
  | inr (digits, e) ↦
      let (n, d, t) = item_args-some o ref sha digits (some a) e h in
      record {
        digits = digits;
        branch = e;
        number = n;
        numbered = d;
        item = some-injective a (args_for o ref sha n) t;
      }
]

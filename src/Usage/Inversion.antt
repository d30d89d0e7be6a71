-- ===== src/Usage/Inversion.antt =====
-- What is known of the steps of a chain that ended with a value.
use fs_quint.Base.{◌≡◌, refl, ap, arith, Bool, true, false, if◌then◌else◌}
use fs_quint.Usage.{Fault, Tried, done, threw, ◌>>=◌}
use fs_quint.Usage.Server.{Ask, Request, proceed}
use fs_quint.Base.{List}

pub done-injective : {A : Type 0} (a b : A) → done a ≡ done b → a ≡ b
done-injective a b e = ap (λ r. elim r [ done x ↦ x | threw f ↦ a ]) e

pub threw-done : {A : Type 0} (f : Fault) (a : A) → threw f ≡ done a → ⊥
threw-done f a e = ground (arith, e)

-- The first step gave a value, and the rest gave the result.
pub >>=-done :
    {A B : Type 0} (r : Tried A) (f : A → Tried B) (b : B)
    → (r >>= f) ≡ done b
    → (a : A) × (r ≡ done a) × (f a ≡ done b)
>>=-done (done a) f b h = (a, refl, h)
>>=-done (threw e) f b h = absurd (threw-done e b h)

pub if-done :
    {A : Type 0} (b : Bool) (r : Tried A) (f : Fault) (a : A)
    → (if b then r else threw f) ≡ done a
    → (b ≡ true) × (r ≡ done a)
if-done true r f a h = (refl, h)
if-done false r f a h = absurd (threw-done f a h)

proceed-done :
    {A B : Type 0} (r : Tried A) (f : A → Ask B) (w : List Request) (b : B)
    → (proceed r f w).result ≡ done b
    → (a : A) × (r ≡ done a) × ((f a w).result ≡ done b)
proceed-done (done a) f w b h = (a, refl, h)
proceed-done (threw e) f w b h = absurd (threw-done e b h)

pub ask-done :
    {A B : Type 0} (m : Ask A) (f : A → Ask B) (w : List Request) (b : B)
    → (proceed (m w).result f (m w).asked).result ≡ done b
    → (a : A) × ((m w).result ≡ done a) × ((f a (m w).asked).result ≡ done b)
ask-done m f w b h = proceed-done (m w).result f (m w).asked b h

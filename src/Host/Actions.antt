-- ===== src/Host/Actions.antt =====
-- Inversion of actions that end with a value.
use fs_quint.Base.{◌≡◌, refl, arith}
use fs_quint.Host.{Result, value, raised, World, Exec, proceed, ◌>>=◌}

proceed-value :
    {A B : Type 0} (r : Result A) (f : A → Exec B) (w : World) (b : B)
    → (proceed r f w).result ≡ value b
    → (a : A) × (r ≡ value a) × ((f a w).result ≡ value b)
proceed-value (value a) f w b h = (a, refl, h)
proceed-value (raised e) f w b h = absurd (ground arith)

pub >>=-value :
    {A B : Type 0} (m : Exec A) (f : A → Exec B) (w : World) (b : B)
    → ((m >>= f) w).result ≡ value b
    → (a : A) × ((m w).result ≡ value a) × ((f a (m w).world).result ≡ value b)
>>=-value m f w b h = proceed-value (m w).result f (m w).world b h

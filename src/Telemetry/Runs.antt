-- ===== src/Telemetry/Runs.antt =====
-- What an action leaves behind, started in one state and at one time: a condition for its value and
-- one for its exceptions, with a rule for each way to build an action.
use fs_quint.Base.{Bool, true, false, Option, none, some, ◌≡◌, refl, if◌then◌else◌}
use fs_quint.Usage.{Fault, Tried, done, threw}
use fs_quint.Telemetry.Machine.{
  Log, Act, pure, raise, lift, inspect, observe, modify, proceed, catch, handle, ◌>>=◌, ◌>>◌,
}

abbrev pub After :
    {S A : Type 0}
    → (A → S → Log → Type 0)
    → (Fault → S → Log → Type 0)
    → Tried A
    → S
    → Log
    → Type 0
After Q E (done a) s w = Q a s w
After Q E (threw f) s w = E f s w

pub record Runs {S A : Type 0} (Q : A → S → Log → Type 0) (E : Fault → S → Log → Type 0)
    (m : Act S A) (s : S) (w : Log) : Type 0 where
  pub after : After Q E (m s w).result (m s w).state (m s w).log

module _ {S : Type 0} {E : Fault → S → Log → Type 0} where
  pub Runs-pure :
      {A : Type 0} {Q : A → S → Log → Type 0} (a : A) (s : S) (w : Log)
      → Q a s w
      → Runs Q E (pure a) s w
  Runs-pure a s w q = record { after = q }

  pub Runs-raise :
      {A : Type 0} {Q : A → S → Log → Type 0} (f : Fault) (s : S) (w : Log)
      → E f s w
      → Runs Q E (raise f) s w
  Runs-raise f s w e = record { after = e }

  pub Runs-lift :
      {A : Type 0} {Q : A → S → Log → Type 0} (r : Tried A) (s : S) (w : Log)
      → ((a : A) → r ≡ done a → Q a s w)
      → ((f : Fault) → E f s w)
      → Runs Q E (lift r) s w
  Runs-lift (done a) s w q e = record { after = q a refl }
  Runs-lift (threw f) s w q e = record { after = e f }

  Runs-proceed :
      {A B : Type 0} (P : A → S → Log → Type 0) {Q : B → S → Log → Type 0} (r : Tried A)
      (f : A → Act S B) (s : S) (w : Log)
      → After P E r s w
      → ((a : A) → P a s w → Runs Q E (f a) s w)
      → After Q E (proceed r f s w).result (proceed r f s w).state (proceed r f s w).log
  Runs-proceed P (done a) f s w p k = (k a p).after
  Runs-proceed P (threw e) f s w p k = p

  pub Runs->>= :
      {A B : Type 0} (P : A → S → Log → Type 0) {Q : B → S → Log → Type 0} (m : Act S A)
      (f : A → Act S B) (s : S) (w : Log)
      → Runs P E m s w
      → ((a : A) (t : S) (v : Log) → P a t v → Runs Q E (f a) t v)
      → Runs Q E (m >>= f) s w
  Runs->>= P m f s w h k = record {
    after =
        Runs-proceed P (m s w).result f (m s w).state (m s w).log h.after
          (λ a p. k a (m s w).state (m s w).log p);
  }

  pub Runs-if :
      {A : Type 0} {Q : A → S → Log → Type 0} (b : Bool) (m n : Act S A) (s : S) (w : Log)
      → (b ≡ true → Runs Q E m s w)
      → (b ≡ false → Runs Q E n s w)
      → Runs Q E (if b then m else n) s w
  Runs-if true m n s w h k = h refl
  Runs-if false m n s w h k = k refl

module _ {S A : Type 0} {P Q : A → S → Log → Type 0} {D E : Fault → S → Log → Type 0} where
  After-weaken :
      (r : Tried A) (s : S) (w : Log)
      → ((a : A) (t : S) (v : Log) → P a t v → Q a t v)
      → ((f : Fault) (t : S) (v : Log) → D f t v → E f t v)
      → After P D r s w
      → After Q E r s w
  After-weaken (done a) s w f g h = f a s w h
  After-weaken (threw e) s w f g h = g e s w h

  pub Runs-weaken :
      (m : Act S A) (s : S) (w : Log)
      → Runs P D m s w
      → ((a : A) (t : S) (v : Log) → P a t v → Q a t v)
      → ((f : Fault) (t : S) (v : Log) → D f t v → E f t v)
      → Runs Q E m s w
  Runs-weaken m s w h f g = record {
    after = After-weaken (m s w).result (m s w).state (m s w).log f g h.after;
  }

module _ {S A : Type 0} {Q : A → S → Log → Type 0} {E : Fault → S → Log → Type 0} where
  pub Runs-inspect :
      (f : S → Act S A) (s : S) (w : Log) → Runs Q E (f s) s w → Runs Q E (inspect f) s w
  Runs-inspect f s w h = record { after = h.after }

  pub Runs-option :
      {B : Type 0} (o : Option B) (m : Act S A) (f : B → Act S A) (s : S) (w : Log)
      → Runs Q E m s w
      → ((b : B) → o ≡ some b → Runs Q E (f b) s w)
      → Runs Q E (elim o [ none ↦ m | some b ↦ f b ]) s w
  Runs-option none m f s w h k = h
  Runs-option (some b) m f s w h k = k b refl

  Runs-handle :
      (D : Fault → S → Log → Type 0) (r : Tried A) (h : Fault → Act S A) (s : S) (w : Log)
      → After Q D r s w
      → ((f : Fault) → D f s w → Runs Q E (h f) s w)
      → After Q E (handle r h s w).result (handle r h s w).state (handle r h s w).log
  Runs-handle D (done a) h s w p k = p
  Runs-handle D (threw f) h s w p k = (k f p).after

  pub Runs-catch :
      (D : Fault → S → Log → Type 0) (m : Act S A) (h : Fault → Act S A) (s : S) (w : Log)
      → Runs Q D m s w
      → ((f : Fault) (t : S) (v : Log) → D f t v → Runs Q E (h f) t v)
      → Runs Q E (catch m h) s w
  Runs-catch D m h s w p k = record {
    after =
        Runs-handle D (m s w).result h (m s w).state (m s w).log p.after
          (λ f d. k f (m s w).state (m s w).log d);
  }

  pub Runs-observe :
      {B : Type 0} (g : Log → B) (f : B → Act S A) (s : S) (w : Log)
      → Runs Q E (f (g w)) s w
      → Runs Q E (observe g >>= f) s w
  Runs-observe g f s w h = record { after = h.after }

  pub Runs-modify :
      (f : S → S) (m : Act S A) (s : S) (w : Log)
      → Runs Q E m (f s) w
      → Runs Q E (modify f >> m) s w
  Runs-modify f m s w h = record { after = h.after }

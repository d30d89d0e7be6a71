-- ===== src/Host/Logs.antt =====
-- What an action adds to the log of the host, with a rule for each way to build one.
use fs_quint.Base.{none, some}
use fs_quint.Base.{
  ℤ, Bool, true, false, if◌then◌else◌, ℕ, ◌≡◌, refl, sym, ap, ◌∙◌, Option, List, [], ◌∷◌, ◌++◌, All,
}
use mathlib.Core.List.{append_assoc}
use fs_quint.Base.Text.{Text}
use fs_quint.Host.{
  Proc, not_started, timed_out, exited, Exception, Result, value, raised, Event, ran, slept, World,
  Env, Exec, pure, raise, lift, proceed, ◌>>=◌, execute, pause,
}
use fs_quint.Host.Value.{Json}

-- The log grew by events of one kind.
pub record Extends (P : Event → Type 0) (w v : World) : Type 0 where
  pub events : List Event
  pub grown : v ≡ events ++ w
  pub kinds : All P events

All-append : (P : Event → Type 0) (xs ys : List Event) → All P xs → All P ys → All P (xs ++ ys)
All-append P [] ys a b = b
All-append P (x ∷ xs) ys a b = (a.0, All-append P xs ys a.1 b)

-- The action, started in one world, or in any, adds events of one kind.
pub record LogsAt (P : Event → Type 0) {A : Type 0} (m : Exec A) (w : World) : Type 0 where
  pub grows : Extends P w (m w).world

pub record Logs (P : Event → Type 0) {A : Type 0} (m : Exec A) : Type 0 where
  pub at : (w : World) → LogsAt P m w

module _ {P : Event → Type 0} where
  Extends-refl : (w : World) → Extends P w w
  Extends-refl w = record { events = []; grown = refl; kinds = tt }

  pub Extends-trans : (u v w : World) → Extends P u v → Extends P v w → Extends P u w
  Extends-trans u v w a b = record {
    events = b.events ++ a.events;
    grown = b.grown ∙ (ap (λ x. b.events ++ x) a.grown ∙ sym (append_assoc b.events a.events u));
    kinds = All-append P b.events a.events b.kinds a.kinds;
  }

  Extends-one : (w : World) (x : Event) → P x → Extends P w (x ∷ w)
  Extends-one w x p = record { events = x ∷ []; grown = refl; kinds = (p, tt) }

  pub Logs-pure : {A : Type 0} (a : A) → Logs P (pure a)
  Logs-pure a = record { at = λ w. record { grows = Extends-refl w } }

  pub Logs-raise : (A : Type 0) (e : Exception) → Logs P (raise {A = A} e)
  Logs-raise A e = record { at = λ w. record { grows = Extends-refl w } }

  pub Logs-lift : {A : Type 0} (r : Result A) → Logs P (lift r)
  Logs-lift r = record { at = λ w. record { grows = Extends-refl w } }

  proceed-LogsAt :
      {A B : Type 0} (r : Result A) (f : A → Exec B) (w : World)
      → ((a : A) → r ≡ value a → LogsAt P (f a) w)
      → LogsAt P (proceed r f) w
  proceed-LogsAt (value a) f w h = record { grows = (h a refl).grows }
  proceed-LogsAt (raised e) f w h = record { grows = Extends-refl w }

  -- The rest of a chain may use what the first step gave.
  pub LogsAt->>= :
      {A B : Type 0} (m : Exec A) (f : A → Exec B) (w : World)
      → LogsAt P m w
      → ((a : A) → (m w).result ≡ value a → LogsAt P (f a) (m w).world)
      → LogsAt P (m >>= f) w
  LogsAt->>= m f w a h = record {
    grows =
        Extends-trans w (m w).world ((m >>= f) w).world a.grows
          (proceed-LogsAt (m w).result f (m w).world h).grows;
  }

  pub Logs->>= :
      {A B : Type 0} (m : Exec A) (f : A → Exec B)
      → Logs P m
      → ((a : A) → Logs P (f a))
      → Logs P (m >>= f)
  Logs->>= m f a h = record { at = λ w. LogsAt->>= m f w (a.at w) (λ x e. (h x).at (m w).world) }

  pub Logs-execute :
      (env : Env) (argv : List Text) (input : Option Json)
      → P (ran argv input)
      → Logs P (execute env argv input)
  unfolding execute
  Logs-execute env argv input p = record {
    at = λ w. record { grows = Extends-one w (ran argv input) p };
  }

  pub Logs-pause : (k : ℕ) → P (slept k) → Logs P (pause k)
  unfolding pause
  Logs-pause k p = record { at = λ w. record { grows = Extends-one w (slept k) p } }

  pub LogsAt-if :
      {A : Type 0} (b : Bool) (m n : Exec A) (w : World)
      → (b ≡ true → LogsAt P m w)
      → (b ≡ false → LogsAt P n w)
      → LogsAt P (if b then m else n) w
  LogsAt-if true m n w h k = h refl
  LogsAt-if false m n w h k = k refl

  pub Logs-when :
      {A : Type 0} (b : Bool) (m n : Exec A)
      → (b ≡ true → Logs P m)
      → (b ≡ false → Logs P n)
      → Logs P (if b then m else n)
  Logs-when true m n h k = h refl
  Logs-when false m n h k = k refl

  pub Logs-if :
      {A : Type 0} (b : Bool) (m n : Exec A) → Logs P m → Logs P n → Logs P (if b then m else n)
  Logs-if true m n h k = h
  Logs-if false m n h k = k

  -- What follows a command.
  pub Logs-proc :
      {A : Type 0} (p : Proc) (m n : Exec A) (k : ℤ → Text → Text → Exec A)
      → Logs P m
      → Logs P n
      → ((status : ℤ) (out err : Text) → Logs P (k status out err))
      → Logs P
          (elim p [ not_started ↦ m | timed_out ↦ n | exited status out err ↦ k status out err ])
  Logs-proc not_started m n k a b c = a
  Logs-proc timed_out m n k a b c = b
  Logs-proc (exited status out err) m n k a b c = c status out err

  -- What depends on whether a list or an option is empty.
  pub Logs-list :
      {A B : Type 0} (xs : List B) (m : Exec A) (k : B → List B → Exec A)
      → Logs P m
      → ((y : B) (ys : List B) → Logs P (k y ys))
      → Logs P (elim xs [ [] ↦ m | y ∷ ys ↦ k y ys ])
  Logs-list [] m k a b = a
  Logs-list (y ∷ ys) m k a b = b y ys

  pub Logs-option :
      {A B : Type 0} (o : Option B) (m : Exec A) (k : B → Exec A)
      → Logs P m
      → ((y : B) → Logs P (k y))
      → Logs P (elim o [ none ↦ m | some y ↦ k y ])
  Logs-option none m k a b = a
  Logs-option (some y) m k a b = b y

All-weaken :
    (P Q : Event → Type 0) (xs : List Event) → ((x : Event) → P x → Q x) → All P xs → All Q xs
All-weaken P Q [] f a = tt
All-weaken P Q (x ∷ xs) f a = (f x a.0, All-weaken P Q xs f a.1)

pub Logs-weaken :
    (P Q : Event → Type 0) {A : Type 0} (m : Exec A)
    → ((x : Event) → P x → Q x)
    → Logs P m
    → Logs Q m
Logs-weaken P Q m f l = record {
  at = λ w. record {
    grows = record {
      events = ((l.at w).grows).events;
      grown = ((l.at w).grows).grown;
      kinds = All-weaken P Q ((l.at w).grows).events f ((l.at w).grows).kinds;
    };
  };
}

-- From one world alone.
pub LogsAt-weaken :
    (P Q : Event → Type 0) {A : Type 0} (m : Exec A) (w : World)
    → ((x : Event) → P x → Q x)
    → LogsAt P m w
    → LogsAt Q m w
LogsAt-weaken P Q m w f l = record {
  grows = record {
    events = l.grows.events;
    grown = l.grows.grown;
    kinds = All-weaken P Q l.grows.events f l.grows.kinds;
  };
}

-- A log extends another, whatever was added.
abbrev pub Later : World → World → Type 0
Later = Extends (λ x. Unit)

pub Extends-Later : (P : Event → Type 0) (u v : World) → Extends P u v → Later u v
Extends-Later P u v h = record {
  events = h.events;
  grown = h.grown;
  kinds = All-weaken P (λ x. Unit) h.events (λ x p. tt) h.kinds;
}

pub Later-refl : (w : World) → Later w w
Later-refl w = record { events = []; grown = refl; kinds = tt }

-- ===== src/Host.antt =====
-- What the scripts see of their host: JSON values, child processes, the clock, and the exceptions
-- that Python raises. A script is an action on the log of what it did so far; each answer of the
-- host is a function of that log, so it may differ from call to call.
pub mod Value
pub mod Results
pub mod Actions
pub mod Logs
use fs_quint.Base.{ℕ, ℤ, Bool, Option, List, ◌∷◌}
use fs_quint.Base.Text.{Text}
use Value.{Json}

-- lib/gate.py `Unreachable` and `GateError`, check-claim-generation.py `Missing` and `Forbidden`,
-- `SystemExit`, and every other exception.
pub data Exception : Type 0 where
  unreachable gate_error missing forbidden crash : Exception
  system_exit : ℤ → Exception

pub data Result {ℓ} (A : Type ℓ) : Type ℓ where
  value : A → Result A
  raised : Exception → Result A

-- A child process: it could not be started, ran into its timeout, or ended with its exit code,
-- standard output and standard error.
pub data Proc : Type 0 where
  not_started timed_out : Proc
  exited : ℤ → Text → Text → Proc

-- What is done to the host: a command with the JSON value on its standard input, if any, or a
-- pause of the given number of doublings of the first delay.
pub data Event : Type 0 where
  ran : List Text → Option Json → Event
  slept : ℕ → Event

-- `datetime`: microseconds on its wall clock since year 1, and one day less the offset from UTC.
-- The sum is the instant, and never negative.
pub record Datetime : Type 0 where
  pub local : ℕ
  pub shift : ℕ

abbrev pub World : Type 0
World = List Event

-- The result of reading a file as UTF-8.
pub data FileRead : Type 0 where
  os_error undecodable : FileRead
  contents : Text → FileRead

-- The host's answers. Standard input is missing at a terminal; `repr` is `str` of a list or a
-- dictionary. `fromisoformat` gives no zone for a naive instant.
pub record Env : Type 0 where
  pub proc : World → List Text → Option Json → Proc
  pub wall : World → Datetime
  pub loads : Text → Option Json
  pub fromisoformat : Text → Option (record { local : ℕ; zone : Option ℕ })
  pub read_file : World → Text → FileRead
  pub is_file : World → Text → Bool
  pub stdin : Option Text
  pub repr : Json → Text
  pub gh_tries : ℕ

abbrev pub Exec : Type 0 → Type 0
Exec A = World → record { result : Result A; world : World }

module _ {A : Type 0} where
  abbrev pub pure : A → Exec A
  pure a w = record { result = value a; world = w }

  abbrev pub raise : Exception → Exec A
  raise e w = record { result = raised e; world = w }

  abbrev pub lift : Result A → Exec A
  lift r w = record { result = r; world = w }

abbrev pub proceed : {A B : Type 0} → Result A → (A → Exec B) → Exec B
proceed (value a) f w = f a w
proceed (raised e) f w = record { result = raised e; world = w }

infixl 10 ◌>>=◌ ◌>>◌
abbrev pub ◌>>=◌ : {A B : Type 0} → Exec A → (A → Exec B) → Exec B
◌>>=◌ m f w = proceed (m w).result f (m w).world

abbrev pub ◌>>◌ : {A B : Type 0} → Exec A → Exec B → Exec B
m >> n = m >>= λ _. n

module _ (env : Env) where
  -- `subprocess.run(argv, input=...)`
  unfoldable pub execute : List Text → Option Json → Exec Proc
  execute argv input w = record {
    result = value (env.proc w argv input);
    world = ran argv input ∷ w;
  }

-- `time.sleep`
unfoldable pub pause : ℕ → Exec Unit
pause k w = record { result = value tt; world = slept k ∷ w }

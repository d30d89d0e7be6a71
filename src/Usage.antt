-- ===== src/Usage.antt =====
-- native_collaboration_usage.py: what the local Codex host tells of the token usage of a native
-- child. `counts` and the exceptions are here; the App Server is in Usage/Server, the paging in
-- Usage/Pages, the rollout file in Usage/Rollout and `collect` in Usage/Collect.
pub mod Inversion
pub mod Server
pub mod Rows
pub mod Pages
pub mod Rollout
pub mod Tally
pub mod Child
pub mod Turns
pub mod Collect
pub mod Consistent
use fs_quint.Base.{ℕ, ◌+◌, pos, ltb, ◌==◌, if◌then◌else◌}
use fs_quint.Base.Text.{Text, codes}
use fs_quint.Host.Value.{Json, int, obj, Fields, get_or_null}

-- `ConfigurationError`, `HostUnavailable`, `OSError`, `subprocess.SubprocessError`, and every
-- other exception.
pub data Fault : Type 0 where
  configuration host_unavailable os_error subprocess_error crash : Fault

pub data Tried {ℓ} (A : Type ℓ) : Type ℓ where
  done : A → Tried A
  threw : Fault → Tried A

infixl 10 ◌>>=◌
abbrev pub ◌>>=◌ {ℓ κ} : {A : Type ℓ} {B : Type κ} → Tried A → (A → Tried B) → Tried B
done a >>= f = f a
threw e >>= f = threw e

-- The keys `COUNTS`.
pub record Counts : Type 0 where
  pub input : ℕ
  pub cached : ℕ
  pub output : ℕ
  pub reasoning : ℕ
  pub total : ℕ

-- One counter: an integer that is no `bool` and not negative.
unfoldable pub counter : Text → Fields → Tried ℕ
unfolding get_or_null
counter key fs = elim (get_or_null key fs) [ int (pos n) ↦ done n | _ ↦ threw host_unavailable ]

unfoldable pub check_counts : Counts → Tried Counts
check_counts c =
    if ltb c.input c.cached
    then threw host_unavailable
    else if ltb c.output c.reasoning
    then threw host_unavailable
    else if c.input + c.output == c.total
    then done c
    else threw host_unavailable

unfoldable pub counts : Json → Tried Counts
unfolding counter check_counts
counts (obj fs) = do
  input ← counter (codes "input_tokens") fs
  cached ← counter (codes "cached_input_tokens") fs
  output ← counter (codes "output_tokens") fs
  reasoning ← counter (codes "reasoning_output_tokens") fs
  total ← counter (codes "total_tokens") fs
  check_counts record {
    input = input;
    cached = cached;
    output = output;
    reasoning = reasoning;
    total = total;
  }
counts _ = threw host_unavailable

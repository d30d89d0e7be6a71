-- ===== src/Gate.antt =====
-- scripts/lib/gate.py: the exit codes of a gate, the wrapper around its `main`, and the census of
-- subjects that a green report needs.
pub mod Codes
pub mod Census
pub mod Green
pub mod Triggers
use fs_quint.Base.{ℤ, pos, Bool, true, false, if◌then◌else◌}
use fs_quint.Host.{Exception, unreachable, gate_error, system_exit, Result, value, raised, Exec}

pub data ExitCode : Type 0 where
  ok finding no_verdict_retryable no_verdict_permanent : ExitCode

unfoldable pub code : ExitCode → ℤ
code ok = pos 0
code finding = pos 1
code no_verdict_retryable = pos 2
code no_verdict_permanent = pos 3

-- `isinstance(e, Unreachable)`, and `isinstance(e, GateError)`, of which `Unreachable` is a subclass.
unfoldable pub is_unreachable : Exception → Bool
is_unreachable unreachable = true
is_unreachable _ = false

unfoldable pub is_gate_error : Exception → Bool
is_gate_error gate_error = true
is_gate_error unreachable = true
is_gate_error _ = false

-- `isinstance(e, Exception)`: `SystemExit` is none.
unfoldable pub is_ordinary : Exception → Bool
is_ordinary (system_exit n) = false
is_ordinary _ = true

-- The `except` clauses of `run`, in their order.
unfoldable pub handle : Result ℤ → Result ℤ
unfolding code is_unreachable is_gate_error is_ordinary
handle (value n) = value n
handle (raised e) =
    if is_unreachable e
    then value (code no_verdict_retryable)
    else if is_gate_error e
    then value (code no_verdict_permanent)
    else if is_ordinary e
    then value (code no_verdict_permanent)
    else raised e

unfoldable pub run : Exec ℤ → Exec ℤ
unfolding handle
run main w = let done = main w in record { result = handle done.result; world = done.world }

-- The status of the process: `sys.exit(run(...))`.
unfoldable pub exit_status : Result ℤ → ℤ
unfolding code
exit_status (value n) = n
exit_status (raised (system_exit n)) = n
exit_status (raised _) = code finding

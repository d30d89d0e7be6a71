-- ===== src/Gate/Codes.antt =====
-- The exit-code contract of `run`: no exception reads as green or as a finding.
use fs_quint.Base.{ℤ, pos, ◌≡◌, refl, ◌≢◌, ◌↔◌, ◌⊎◌, inl, inr, arith}
use fs_quint.Host.{
  Exception, unreachable, gate_error, missing, forbidden, crash, system_exit, Result, value, raised,
  Exec, World,
}
use fs_quint.Gate.{ExitCode, ok, finding, code, handle, run, exit_status}

-- An exception that `run` can catch.
abbrev pub Caught : Exception → Type 0
Caught e = (n : ℤ) → e ≢ system_exit n

handle_lem :
    (r : Result ℤ)
    → ((e : Exception) → r ≡ raised e → Caught e)
    → (c : ExitCode) → (c ≡ ok) ⊎ (c ≡ finding)
    → (exit_status (handle r) ≡ code c) ↔ (r ≡ value (code c))
unfolding handle exit_status code
handle_lem (value n) h c d = ground arith
handle_lem (raised (system_exit n)) h c d = absurd (h (system_exit n) refl n refl)
handle_lem (raised unreachable) h c d = ground arith
handle_lem (raised gate_error) h c d = ground arith
handle_lem (raised missing) h c d = ground arith
handle_lem (raised forbidden) h c d = ground arith
handle_lem (raised crash) h c d = ground arith

-- A gate whose `main` does not raise `SystemExit` exits 0, or 1, exactly when `main` itself returned
-- that number: no other exception turns into a green or into a finding.
pub run-verdict :
    (main : Exec ℤ) (w : World)
    → ((e : Exception) → (main w).result ≡ raised e → Caught e)
    → (c : ExitCode) → (c ≡ ok) ⊎ (c ≡ finding)
    → (exit_status (run main w).result ≡ code c) ↔ ((main w).result ≡ value (code c))
unfolding run
run-verdict main w h c d = handle_lem (main w).result h c d

-- When `main` raises an exception other than `SystemExit`, the exit status is 2 if it is `Unreachable`,
-- although that is a `GateError` too, and 3 if it is not, a crash included.
pub run-raised :
    (main : Exec ℤ) (w : World) (e : Exception)
    → (main w).result ≡ raised e
    → Caught e
    → ((e ≡ unreachable) × (exit_status (run main w).result ≡ pos 2))
      ⊎ ((e ≢ unreachable) × (exit_status (run main w).result ≡ pos 3))
unfolding run handle exit_status code
run-raised main w unreachable h c = rw (h, handle) (inl (refl, refl))
run-raised main w gate_error h c = rw (h, handle) (inr ((λ p. cc), refl))
run-raised main w missing h c = rw (h, handle) (inr ((λ p. cc), refl))
run-raised main w forbidden h c = rw (h, handle) (inr ((λ p. cc), refl))
run-raised main w crash h c = rw (h, handle) (inr ((λ p. cc), refl))
run-raised main w (system_exit n) h c = absurd (c n refl)

-- ===== src/Tests/Shared.antt =====
-- The transport and the exit codes at concrete inputs.
use fs_quint.Base.{ℤ, pos, ◌≡◌, ◌≢◌, ◌↔◌, ◌⊎◌, inl, refl, arith, [], ◌∷◌}
use fs_quint.Base.Text.{codes}
use fs_quint.Host.{Exception, unreachable, crash, raised, value, Env, Exec, timed_out, pure, raise}
use fs_quint.Gate.{ok, code, run, exit_status}
use fs_quint.Gate.Codes.{run-verdict, run-raised}
use fs_quint.Gate.Census.{SubjectCensus, IsComplete, report_ok}
use fs_quint.Gate.Green.{report_ok-IsComplete}
use fs_quint.Claim.Transport.{gh_api}
use fs_quint.Claim.Transport.Retries.{Settles, gh_api-Settles}
use fs_quint.Tests.{host}

-- Every attempt runs into the timeout.
abbrev slow_host : Env
slow_host = record host { proc = λ w argv input. timed_out }

gh_api-Settles_example :
    Settles slow_host
      (codes "gh" ∷ codes "api" ∷ codes "x" ∷ [])
      3
      []
      (gh_api slow_host (codes "x" ∷ []) []).world
      (gh_api slow_host (codes "x" ∷ []) []).result
gh_api-Settles_example = gh_api-Settles slow_host (codes "x" ∷ []) [] 2 refl

abbrev crashing : Exec ℤ
crashing = raise crash

abbrev passing : Exec ℤ
passing = pure (pos 0)

passing_raises :
    (e : Exception) → (passing []).result ≡ raised e → (n : ℤ) → e ≢ Exception.system_exit n
passing_raises e h = absurd (ground (arith, h))

run-verdict_example :
    (exit_status (run passing []).result ≡ code ok) ↔ ((passing []).result ≡ value (code ok))
run-verdict_example = run-verdict passing [] passing_raises ok (inl refl)

run-raised_example :
    ((crash ≡ unreachable) × (exit_status (run crashing []).result ≡ pos 2))
    ⊎ ((crash ≢ unreachable) × (exit_status (run crashing []).result ≡ pos 3))
run-raised_example = run-raised crashing [] crash refl (λ n e. ground (arith, e))

abbrev census : SubjectCensus
census = record {
  declared = codes "a" ∷ [];
  resolved = codes "a" ∷ [];
  examined = codes "p" ∷ [];
  producers = codes "p" ∷ [];
  authority_revision = codes "r";
  authority_digest = codes "d";
}

report_ok-IsComplete_example : (report_ok census ≡ code ok) ↔ IsComplete census
report_ok-IsComplete_example = report_ok-IsComplete census

-- ===== src/Claim/Main/Routes.antt =====
-- What a green exit of the gate means for a routine pull request.
use fs_quint.Claim.Verdict.{Args}
use fs_quint.Base.{◌≡◌, sym, subst, true, false, arith}
use fs_quint.Base.Text.{Text}
use fs_quint.Host.{World, Env, value, pure}
use fs_quint.Host.Actions.{>>=-value}
use fs_quint.Host.Results.{value-injective}
use fs_quint.Gate.{ok, code}
use fs_quint.Claim.Shape.{routine_branch}
use fs_quint.Claim.Routine.{RoutineVerdict, is_admitted, or_blank, blank, evaluate_routine}
use fs_quint.Claim.Routine.Admission.{evaluate_routine-Admission}
use fs_quint.Claim.Routine.Evidence.{Admission}
use fs_quint.Claim.Verdict.{Finding}
use fs_quint.Claim.Main.{read_body, Cli, routine, report_code, request, judge, main}
use fs_quint.Claim.Main.Judged.{main-Judged}

report_code-admitted : (v : RoutineVerdict) → report_code (routine v) ≡ ok → is_admitted v ≡ true
unfolding report_code
report_code-admitted v h = ground arith

-- The body that the command line names was evaluated under its request, and admitted.
pub record Admitted (env : Env) (message : Args → Finding → Text) (cli : Cli) (w : World)
    : Type 0 where
  pub body : Text
  pub read : (read_body env message cli.body w).result ≡ value body
  pub verdict : RoutineVerdict
  pub evaluated : (evaluate_routine env (request cli) body w).result ≡ value verdict
  pub admission : Admission env (request cli) body w verdict

-- The command returns 0 for a routine branch and a trusted policy revision only after it evaluated
-- the body that the command line names under its own request, and the evaluation admitted it: a
-- commit as base, a policy printed at that revision that says what it must, one complete marker, a
-- proved head, an allowed and unprotected operation, and at least one path that `git diff` listed.
pub main-Admission :
    (env : Env) (message : Args → Finding → Text) (cli : Cli) (w : World)
    → cli.sweep ≡ false
    → routine_branch (or_blank cli.head_ref) ≡ true
    → blank cli.routine_policy_ref ≡ false
    → (main env message cli w).result ≡ value (code ok)
    → Admitted env message cli w
unfolding judge
main-Admission env message cli w strict branch trusted h =
    let z = main-Judged env message cli w strict h in
    let (v, e, k) =
      >>=-value (evaluate_routine env (request cli) z.body) (λ v. pure (routine v)) w z.report
        (rw (branch, trusted, judge) at z.judged) in
    let admits =
      report_code-admitted v
        (subst (λ r. report_code r ≡ ok) (sym (value-injective (routine v) z.report k)) z.green) in
    record {
      body = z.body;
      read = z.read;
      verdict = v;
      evaluated = e;
      admission = evaluate_routine-Admission env (request cli) z.body w v e admits;
    }

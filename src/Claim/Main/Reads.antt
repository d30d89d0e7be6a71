-- ===== src/Claim/Main/Reads.antt =====
-- When the command only reads.
use fs_quint.Base.{◌≡◌, sym, ◌∙◌, ◌⊎◌, inl, inr, ℤ, Bool, true, false, Option, none, some}
use mathlib.Core.Bool.{false≢true}
use fs_quint.Base.Text.{Text}
use fs_quint.Host.{
  crash, gate_error, Event, ran, slept, Datetime, FileRead, os_error, undecodable, contents, World,
  Env, lift,
}
use fs_quint.Host.Logs.{
  Extends, Logs, Logs-pure, Logs-raise, Logs-lift, Logs->>=, Logs-if, Logs-when, Logs-option,
  LogsAt-weaken,
}
use fs_quint.Claim.Transport.Reading.{IsRead}
use fs_quint.Claim.Lease.{lease_minutes, parse_instant}
use fs_quint.Claim.State.{clock}
use fs_quint.Claim.Verdict.{Args, Options, Finding, Verdict, item_args, deadline_lines}
use fs_quint.Claim.Verdict.Reading.{clock-Logs, evaluate-Logs, deadline_lines-Logs}
use fs_quint.Claim.Routine.{or_blank, blank, evaluate_routine}
use fs_quint.Claim.Routine.Reading.{evaluate_routine-Logs}
use fs_quint.Claim.Sweep.{Sweep, sweep_all}
use fs_quint.Claim.Sweep.Reads.{Publishes}
use fs_quint.Claim.Sweep.Revokes.{sweep_all-LogsAt}
use fs_quint.Claim.Main.{
  Cli, require, request, instant_option, read_stdin, read_contents, read_path, read_body,
  sweep_alone, head_given, item_verdict, report_item, judge_item, judge, sweep_or_judge, at_instant,
  under_lease, reported, main,
}

-- A dry run has no grounds to publish.
dry-IsRead :
    (env : Env) (s : Sweep) (w : World) (x : Event)
    → s.dry_run ≡ true
    → Publishes env s w x
    → IsRead x
dry-IsRead env s w (ran argv none) d p = p
dry-IsRead env s w (ran argv (some input)) d p = absurd (false≢true (sym p.wet ∙ d))
dry-IsRead env s w (slept k) d p = tt

abbrev same_event : (x : Event) → IsRead x → IsRead x
same_event x h = h

module _ (env : Env) (message : Args → Finding → Text) where
  require-Logs : (b : Bool) → Logs IsRead (require b)
  unfolding require
  require-Logs true = Logs-pure tt
  require-Logs false = Logs-raise Unit gate_error

  instant_option-Logs : (raw : Option Text) → Logs IsRead (instant_option env message raw)
  unfolding instant_option
  instant_option-Logs raw =
      Logs-if (blank raw) _ _ (Logs-pure none)
        (Logs->>= (lift (parse_instant env (or_blank raw))) _ (Logs-lift _) (λ at. Logs-pure _))

  read_stdin-Logs : (o : Option Text) → Logs IsRead (read_stdin env message o)
  unfolding read_stdin
  read_stdin-Logs none = Logs-raise Text gate_error
  read_stdin-Logs (some body) = Logs-pure body

  read_contents-Logs : (r : FileRead) → Logs IsRead (read_contents env message r)
  unfolding read_contents
  read_contents-Logs os_error = Logs-raise Text gate_error
  read_contents-Logs undecodable = Logs-raise Text crash
  read_contents-Logs (contents body) = Logs-pure body

  read_path-Logs : (path : Text) → Logs IsRead (read_path env message path)
  unfolding read_path
  read_path-Logs path = record {
    at = λ w. record { grows = ((read_contents-Logs (env.read_file w path)).at w).grows };
  }

  read_body-Logs : (path : Option Text) → Logs IsRead (read_body env message path)
  unfolding read_body
  read_body-Logs path =
      Logs-if (blank path) _ _ (read_stdin-Logs env.stdin) (read_path-Logs (or_blank path))

  item_verdict-Logs : (a : Args) (body : Text) → Logs IsRead (item_verdict env message a body)
  unfolding item_verdict
  item_verdict-Logs a body = record {
    at = λ w. record { grows = ((evaluate-Logs same_event env a body).at w).grows };
  }

  report_item-Logs : (a : Args) (v : Verdict) → Logs IsRead (report_item env message a v)
  unfolding report_item
  report_item-Logs a v =
      Logs-option v.finding _ _
        (Logs->>= (deadline_lines env a v.state) _ (deadline_lines-Logs same_event env a v.state)
          (λ d. Logs-pure _))
        (λ f. Logs-pure _)

  judge_item-Logs : (body : Text) (o : Option Args) → Logs IsRead (judge_item env message body o)
  unfolding judge_item
  judge_item-Logs body none = Logs-pure _
  judge_item-Logs body (some a) =
      Logs->>= (item_verdict env message a body) _ (item_verdict-Logs a body) (report_item-Logs a)

  judge-Logs : (cli : Cli) (o : Options) (body : Text) → Logs IsRead (judge env message cli o body)
  unfolding judge
  judge-Logs cli o body =
      Logs-if _ _ _
        (Logs->>= (evaluate_routine env (request cli) body) _
          (evaluate_routine-Logs same_event env (request cli) body) (λ v. Logs-pure _))
        (Logs->>= (lift (item_args o (or_blank cli.head_ref) (or_blank cli.head_sha))) _
          (Logs-lift _) (judge_item-Logs body))

  sweep-Logs : (s : Sweep) → s.dry_run ≡ true → Logs IsRead (sweep_all env s)
  sweep-Logs s d = record {
    at = λ w.
        LogsAt-weaken (Publishes env s w) IsRead (sweep_all env s) w (λ x. dry-IsRead env s w x d)
          (sweep_all-LogsAt env s w);
  }

  module _ (cli : Cli) (quiet : (cli.sweep ≡ false) ⊎ (cli.dry_run ≡ true)) where
    is_dry : cli.sweep ≡ true → cli.dry_run ≡ true
    is_dry on = elim quiet [ inl off ↦ absurd (false≢true (sym off ∙ on)) | inr dry ↦ dry ]

    sweep_or_judge-Logs : (o : Options) → Logs IsRead (sweep_or_judge env message cli o)
    unfolding sweep_or_judge
    sweep_or_judge-Logs o =
        Logs-when cli.sweep _ _
          (λ on.
            Logs->>= (require (sweep_alone cli)) _ (require-Logs (sweep_alone cli))
              λ _. Logs->>= (sweep_all env _) _ (sweep-Logs _ (is_dry on)) (λ n. Logs-pure _))
          (λ off. Logs->>= (require (head_given cli)) _ (require-Logs (head_given cli)) λ _.
            Logs->>= (read_body env message cli.body) _ (read_body-Logs cli.body)
              (judge-Logs cli o))

    at_instant-Logs :
        (lease : ℤ) (now : Option Datetime) (at : Datetime)
        → Logs IsRead (at_instant env message cli lease now at)
    unfolding at_instant
    at_instant-Logs lease now at =
        Logs->>= (require _) _ (require-Logs _)
          λ _. Logs->>= (require _) _ (require-Logs _) λ _. sweep_or_judge-Logs _

    under_lease-Logs : (lease : ℤ) → Logs IsRead (under_lease env message cli lease)
    unfolding under_lease
    under_lease-Logs lease =
        Logs->>= (instant_option env message cli.now) _ (instant_option-Logs cli.now) λ now.
          Logs->>= (clock env now) _ (clock-Logs same_event env now) (at_instant-Logs lease now)

    reported-Logs : Logs IsRead (reported env message cli)
    unfolding reported
    reported-Logs =
        Logs->>= (lift (lease_minutes cli.lease_minutes cli.lease_env)) _ (Logs-lift _)
          under_lease-Logs

    main-Logs : Logs IsRead (main env message cli)
    unfolding main
    main-Logs = Logs->>= (reported env message cli) _ reported-Logs (λ r. Logs-pure _)

-- Without `--sweep`, and with `--dry-run`, the command only reads, however it ends: all that it adds to
-- the log of the host are pauses and, without input, `gh api` with a filter and a path alone, `git show`,
-- `git diff --name-only` and `git merge-base --is-ancestor`.
pub main-IsRead :
    (env : Env) (message : Args → Finding → Text) (cli : Cli) (w : World)
    → (cli.sweep ≡ false) ⊎ (cli.dry_run ≡ true)
    → Extends IsRead w (main env message cli w).world
main-IsRead env message cli w quiet = ((main-Logs env message cli quiet).at w).grows

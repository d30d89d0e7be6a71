-- ===== src/Claim/Main/Judged.antt =====
-- What a status 0 of the command rests on, if it is no sweep.
use fs_quint.Claim.Verdict.{Args}
use fs_quint.Base.{◌≡◌, refl, Bool, true, false, arith}
use fs_quint.Base.Text.{Text}
use fs_quint.Host.{World, Env, Exec, value, pure, lift, ◌>>=◌, ◌>>◌}
use fs_quint.Host.Actions.{>>=-value}
use fs_quint.Gate.{ExitCode, ok, code}
use fs_quint.Claim.Lease.{lease_minutes}
use fs_quint.Claim.State.{clock}
use fs_quint.Claim.Verdict.{Options, Finding}
use fs_quint.Base.{ℤ, Option, none, some, ◌∙◌, subst, inl, inr, Bool-cases}
use fs_quint.Host.{Datetime, FileRead, os_error, undecodable, contents}
use fs_quint.Host.Results.{Result-cases}
use fs_quint.Claim.Lease.{parse_instant}
use fs_quint.Claim.Routine.{or_blank, blank}
use fs_quint.Claim.Main.{
  given_lease, read_stdin, read_contents, read_path, Cli, Report, report_code, require, read_body,
  head_given, judge, instant_option, at_instant, under_lease, sweep_or_judge, reported, main,
}

-- The options that the command line gives.
abbrev pub options_of : Cli → ℤ → Option Datetime → Options
options_of cli lease now = record {
  repo = cli.repo;
  lease_minutes = lease;
  lease_from_cli = given_lease cli.lease_minutes;
  now = now;
}

-- The last part of the run, with a green report: its lease and its instant are those of the command
-- line, and its body is the one that was read.
pub record Judged (env : Env) (message : Args → Finding → Text) (cli : Cli) (w : World)
    : Type 0 where
  pub lease : ℤ
  pub leased : lease_minutes cli.lease_minutes cli.lease_env ≡ value lease
  pub now : Option Datetime
  pub given : (instant_option env message cli.now w).result ≡ value now
  pub body : Text
  pub read : (read_body env message cli.body w).result ≡ value body
  pub report : Report
  pub judged : (judge env message cli (options_of cli lease now) body w).result ≡ value report
  pub green : report_code report ≡ ok

code-ok : (c : ExitCode) → code c ≡ code ok → c ≡ ok
unfolding code
code-ok c h = ground arith

require-value :
    {A : Type 0} (b : Bool) (m : Exec A) (w : World) (r : A)
    → ((require b >> m) w).result ≡ value r
    → (m w).result ≡ value r
unfolding require
require-value true m w r h = h
require-value false m w r h = absurd (ground arith)

module _ (env : Env) (message : Args → Finding → Text) where
  -- Neither the options nor the body add to the log.
  instant_option-world :
      (raw : Option Text) (w : World) → (instant_option env message raw w).world ≡ w
  unfolding instant_option
  instant_option-world raw w = elim (Bool-cases (blank raw)) [
    | inl e ↦ rw (e, instant_option) refl
    | inr e ↦ elim (Result-cases (parse_instant env (or_blank raw))) [
      | inl (at, q) ↦ rw (e, instant_option, q) refl
      | inr (x, q) ↦ rw (e, instant_option, q) refl
    ]
  ]

  clock-world : (now : Option Datetime) (w : World) → (clock env now w).world ≡ w
  unfolding clock
  clock-world none w = refl
  clock-world (some at) w = refl

  read_stdin-world : (o : Option Text) (w : World) → (read_stdin env message o w).world ≡ w
  unfolding read_stdin
  read_stdin-world none w = refl
  read_stdin-world (some body) w = refl

  read_contents-world : (r : FileRead) (w : World) → (read_contents env message r w).world ≡ w
  unfolding read_contents
  read_contents-world os_error w = refl
  read_contents-world undecodable w = refl
  read_contents-world (contents body) w = refl

  read_body-world : (path : Option Text) (w : World) → (read_body env message path w).world ≡ w
  unfolding read_body read_path
  read_body-world path w = elim (Bool-cases (blank path)) [
    | inl e ↦ rw (e, read_body) (read_stdin-world env.stdin w)
    | inr e ↦ rw (e, read_body) (read_contents-world (env.read_file w (or_blank path)) w)
  ]

  module _ (cli : Cli) where
    strict-Judged :
        (lease : ℤ) (now : Option Datetime) (w : World) (r : Report)
        → lease_minutes cli.lease_minutes cli.lease_env ≡ value lease
        → (instant_option env message cli.now w).result ≡ value now
        → cli.sweep ≡ false
        → (sweep_or_judge env message cli (options_of cli lease now) w).result ≡ value r
        → report_code r ≡ ok
        → Judged env message cli w
    unfolding sweep_or_judge
    strict-Judged lease now w r leased given strict h g =
        let o = options_of cli lease now in
        let inner =
          require-value (head_given cli)
            (read_body env message cli.body >>= judge env message cli o) w r (simp strict at h) in
        let (body, e, k) =
          >>=-value (read_body env message cli.body) (judge env message cli o) w r inner in
        record {
          lease = lease;
          leased = leased;
          now = now;
          given = given;
          body = body;
          read = e;
          report = r;
          judged =
              subst (λ v. (judge env message cli o body v).result ≡ value r)
                (read_body-world cli.body w) k;
          green = g;
        }

    pub main-Judged :
        (w : World)
        → cli.sweep ≡ false
        → (main env message cli w).result ≡ value (code ok)
        → Judged env message cli w
    unfolding main reported under_lease at_instant
    main-Judged w strict h =
        let (r, e, k) =
          >>=-value (reported env message cli) (λ r. pure (code (report_code r))) w (code ok) h in
        let (lease, e1, k1) =
          >>=-value (lift (lease_minutes cli.lease_minutes cli.lease_env))
            (under_lease env message cli) w r e in
        let (now, e2, k2) =
          >>=-value (instant_option env message cli.now)
            (λ now. clock env now >>= at_instant env message cli lease now) w r k1 in
        let v = (instant_option env message cli.now w).world in
        let (at, e3, k3) =
          >>=-value (clock env now) (at_instant env message cli lease now) v r k2 in
        let k4 =
          subst (λ u. (at_instant env message cli lease now at u).result ≡ value r)
            (clock-world now v ∙ instant_option-world cli.now w) k3 in
        strict-Judged lease now w r e1 e2 strict (require-value _ _ w r (require-value _ _ w r k4))
          (code-ok (report_code r) (ground arith))

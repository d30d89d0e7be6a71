-- ===== src/Claim/Main.antt =====
-- check-claim-generation.py `main`, behind its option parser.
pub mod Exits
pub mod Judged
pub mod Routes
pub mod Reads
use fs_quint.Base.{ℤ, Bool, true, false, not, ◌&&◌, ◌||◌, Option, none, some, if◌then◌else◌}
use fs_quint.Base.Text.{Text, lower}
use fs_quint.Host.{
  Exception, gate_error, forbidden, crash, Result, value, raised, FileRead, FileRead, os_error,
  undecodable, contents, Datetime, Env, Exec, World, pure, raise, lift, ◌>>=◌, ◌>>◌,
}
use fs_quint.Gate.{ExitCode, ok, finding, code}
use fs_quint.Claim.Lease.{lease_minutes, expiry_of, parse_instant}
use fs_quint.Claim.Shape.{is_head_sha, routine_branch}
use fs_quint.Claim.State.{clock}
use fs_quint.Claim.Verdict.{
  Args, Options, Finding, Verdict, Deadline, evaluate, item_args, deadline_lines,
}
use fs_quint.Claim.Routine.{Request, RoutineVerdict, is_admitted, evaluate_routine, or_blank, blank}
use fs_quint.Claim.Sweep.{Sweep, Counts, sweep_all}

-- The parsed command line, with `$FSGG_CLAIM_LEASE_MIN`.
pub record Cli : Type 0 where
  pub repo : Text
  pub head_ref : Option Text
  pub head_sha : Option Text
  pub base_sha : Option Text
  pub routine_policy : Text
  pub routine_policy_ref : Option Text
  pub routine_previous_head : Option Text
  pub body : Option Text
  pub lease_minutes : Option ℤ
  pub now : Option Text
  pub sweep : Bool
  pub dry_run : Bool
  pub lease_env : Option Text

-- What is printed at the end.
pub data Report : Type 0 where
  swept : Counts → Report
  routine : RoutineVerdict → Report
  no_item : Report
  current : Deadline → Report
  refused : Finding → Report

unfoldable pub report_code : Report → ExitCode
unfolding is_admitted
report_code (swept n) = ok
report_code (routine v) = if is_admitted v then ok else finding
report_code no_item = ok
report_code (current d) = ok
report_code (refused f) = finding

unfoldable pub given_lease : Option ℤ → Bool
given_lease none = false
given_lease (some n) = true

unfoldable pub request : Cli → Request
request cli = record {
  head_ref = or_blank cli.head_ref;
  head_sha = or_blank cli.head_sha;
  base_sha = cli.base_sha;
  routine_policy = cli.routine_policy;
  routine_policy_ref = cli.routine_policy_ref;
  previous_head = cli.routine_previous_head;
}

-- `--routine-previous-head` is absent, or a commit beside a trusted policy revision.
unfoldable pub previous_accepted : Cli → Option Text → Bool
previous_accepted cli none = true
previous_accepted cli (some p) = not (blank cli.routine_policy_ref) && is_head_sha (lower p)

unfoldable pub sweep_alone : Cli → Bool
sweep_alone cli = blank cli.head_ref && blank cli.head_sha && blank cli.base_sha && blank cli.body

unfoldable pub head_given : Cli → Bool
head_given cli =
    not (blank cli.head_ref)
    && not (blank cli.head_sha)
    && is_head_sha (lower (or_blank cli.head_sha))

unfoldable pub require : Bool → Exec Unit
require true = pure tt
require false = raise gate_error

module _ (env : Env) (message : Args → Finding → Text) where
  unfoldable pub instant_option : Option Text → Exec (Option Datetime)
  instant_option raw =
      if blank raw
      then pure none
      else (do at ← lift (parse_instant env (or_blank raw)); pure (some at))

  read_stdin : Option Text → Exec Text
  read_stdin none = raise gate_error
  read_stdin (some body) = pure body

  read_contents : FileRead → Exec Text
  read_contents os_error = raise gate_error
  read_contents undecodable = raise crash
  read_contents (contents body) = pure body

  read_path : Text → Exec Text
  unfolding read_contents
  read_path path w = read_contents (env.read_file w path) w

  unfoldable pub read_body : Option Text → Exec Text
  unfolding read_stdin read_path
  read_body path = if blank path then read_stdin env.stdin else read_path (or_blank path)

  -- `except Forbidden` around the evaluation of an item.
  unfoldable pub unreadable : Result Verdict → Result Verdict
  unreadable (raised forbidden) = raised gate_error
  unreadable r = r

  unfoldable pub item_verdict : Args → Text → Exec Verdict
  item_verdict a body w =
      let done = evaluate env a body w in
      record { result = unreadable done.result; world = done.world }

  unfoldable pub report_item : Args → Verdict → Exec Report
  report_item a v = elim v.finding [
    | some f ↦ pure (refused f)
    | none ↦ (do d ← deadline_lines env a v.state; pure (current d))
  ]

  unfoldable pub judge_item : Text → Option Args → Exec Report
  judge_item body none = pure no_item
  judge_item body (some a) = do v ← item_verdict a body; report_item a v

  unfoldable pub judge : Cli → Options → Text → Exec Report
  judge cli o body =
      if routine_branch (or_blank cli.head_ref) && not (blank cli.routine_policy_ref)
      then (do v ← evaluate_routine env (request cli) body; pure (routine v))
      else (do
        a ← lift (item_args o (or_blank cli.head_ref) (or_blank cli.head_sha))
        judge_item body a)

  unfoldable pub sweep_or_judge : Cli → Options → Exec Report
  sweep_or_judge cli o =
      if cli.sweep
      then (do
        require (sweep_alone cli)
        n ← sweep_all env (record { options = o; dry_run = cli.dry_run; message = message })
        pure (swept n))
      else (do require (head_given cli); body ← read_body cli.body; judge cli o body)

  unfoldable pub expiry_known : Option Datetime → Bool
  expiry_known none = false
  expiry_known (some e) = true

  unfoldable pub at_instant : Cli → ℤ → Option Datetime → Datetime → Exec Report
  at_instant cli lease now at = do
    require (expiry_known (expiry_of at lease))
    require (previous_accepted cli cli.routine_previous_head)
    sweep_or_judge cli (record {
      repo = cli.repo;
      lease_minutes = lease;
      lease_from_cli = given_lease cli.lease_minutes;
      now = now;
    })

  unfoldable pub under_lease : Cli → ℤ → Exec Report
  under_lease cli lease = do
    now ← instant_option cli.now
    at ← clock env now
    at_instant cli lease now at

  unfoldable pub reported : Cli → Exec Report
  reported cli = do
    lease ← lift (lease_minutes cli.lease_minutes cli.lease_env)
    under_lease cli lease

  unfoldable pub main : Cli → Exec ℤ
  main cli = do r ← reported cli; pure (code (report_code r))

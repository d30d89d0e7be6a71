-- ===== src/Claim/Main/Exits.antt =====
-- What a green exit of the gate means for a pull request that delivers an item.
use fs_quint.Claim.Verdict.Items.{item_args-some}
use fs_quint.Claim.Main.Judged.{options_of, main-Judged}
use fs_quint.Base.{ℤ, ◌++◌}
use fs_quint.Base.Text.{codes}
use fs_quint.Base.Text.Decimal.{show_int}
use fs_quint.Host.{Datetime}
use fs_quint.Claim.Lease.{lease_minutes}
use fs_quint.Claim.Main.{given_lease, instant_option, read_body}
use fs_quint.Base.{[], ◌∷◌}
use fs_quint.Base.{◌≡◌, refl, ap, ◌∙◌, inl, inr, false, Option, none, some, arith, Option-cases}
use fs_quint.Base.Text.{Text}
use fs_quint.Base.Text.Decimal.{int_of}
use fs_quint.Host.{World, Env, value}
use fs_quint.Host.Results.{Result-cases}
use fs_quint.Host.Actions.{>>=-value}
use fs_quint.Gate.{ok, code}
use fs_quint.Claim.Shape.{item_branch, routine_branch}
use fs_quint.Claim.Routine.{or_blank}
use fs_quint.Claim.Verdict.{Args, Options, Finding, Verdict, evaluate, item_args}
use fs_quint.Claim.Verdict.Passes.{Authorized, evaluate-passes}
use fs_quint.Claim.Main.{
  Cli, Report, report_code, item_verdict, unreadable, report_item, judge_item, judge, main,
}

-- What the command line asks to be evaluated, for the item of that number.
abbrev pub asked_of : Cli → ℤ → ℤ → Option Datetime → Args
asked_of cli number lease now = record {
  repo = cli.repo;
  head_ref = or_blank cli.head_ref;
  head_sha = or_blank cli.head_sha;
  item_number = number;
  lease_minutes = lease;
  lease_from_cli = given_lease cli.lease_minutes;
  now = now;
  expected_item = cli.repo ++ (codes "#" ++ show_int number);
}

-- The body that the command line names was evaluated for the item of the branch, and passed.
pub record Granted (env : Env) (message : Args → Finding → Text) (cli : Cli) (digits : Text)
    (w : World) : Type 0 where
  pub number : ℤ
  pub numbered : int_of digits ≡ some number
  pub lease : ℤ
  pub leased : lease_minutes cli.lease_minutes cli.lease_env ≡ value lease
  pub now : Option Datetime
  pub given : (instant_option env message cli.now w).result ≡ value now
  pub body : Text
  pub read : (read_body env message cli.body w).result ≡ value body
  pub verdict : Verdict
  pub evaluated : (evaluate env (asked_of cli number lease now) body w).result ≡ value verdict
  pub authorized : Authorized env (asked_of cli number lease now) body w verdict

module _ (env : Env) (message : Args → Finding → Text) where
  item_verdict-value :
      (a : Args) (body : Text) (w : World) (v : Verdict)
      → (item_verdict env message a body w).result ≡ value v
      → (evaluate env a body w).result ≡ value v
  unfolding item_verdict unreadable
  item_verdict-value a body w v h = ground arith

  report_item-current :
      (a : Args) (v : Verdict) (w : World) (r : Report)
      → (report_item env message a v w).result ≡ value r
      → report_code r ≡ ok
      → v.finding ≡ none
  unfolding report_item report_code
  report_item-current a v w r h g = elim (Option-cases v.finding) [
    | inl e ↦ e
    | inr (f, e) ↦ absurd (ground arith)
  ]

  -- A green report of the strict gate.
  judge_item-green :
      (body : Text) (a : Args) (w : World) (r : Report)
      → (judge_item env message body (some a) w).result ≡ value r
      → report_code r ≡ ok
      → (v : Verdict) × ((evaluate env a body w).result ≡ value v) × Authorized env a body w v
  unfolding judge_item
  judge_item-green body a w r h g =
      let (v, e, k) =
        >>=-value (item_verdict env message a body) (report_item env message a) w r h in
      let done = item_verdict-value a body w v e in
      (
        v,
        done,
        (evaluate-passes env a body w v done).0
            (report_item-current a v (item_verdict env message a body w).world r k g),
      )

  judge-green :
      (cli : Cli) (o : Options) (body : Text) (a : Args) (w : World) (r : Report)
      → routine_branch (or_blank cli.head_ref) ≡ false
      → item_args o (or_blank cli.head_ref) (or_blank cli.head_sha) ≡ value (some a)
      → (judge env message cli o body w).result ≡ value r
      → report_code r ≡ ok
      → (v : Verdict) × ((evaluate env a body w).result ≡ value v) × Authorized env a body w v
  unfolding judge
  judge-green cli o body a w r b e h g = judge_item-green body a w r (rw (b, e) at h) g

-- The two branch shapes exclude each other.
item-not-routine : (ref digits : Text) → item_branch ref ≡ some digits → routine_branch ref ≡ false
unfolding item_branch routine_branch
item-not-routine [] digits h = refl
item-not-routine (c ∷ s) digits h = ground arith

-- The gate returns 0 for the pull request of an item branch only after it evaluated the body that
-- the command line names, under its lease and at its instant, for its repository, its head and the
-- item of the branch, and the evaluation passed: one authorization marker in the body that binds this
-- head and item, and, among the claims that the comments of that item carry, a live one with the
-- lowest id, which is the generation of the marker.
pub main-Granted :
    (env : Env) (message : Args → Finding → Text) (cli : Cli) (w : World) (digits : Text)
    → cli.sweep ≡ false
    → item_branch (or_blank cli.head_ref) ≡ some digits
    → (main env message cli w).result ≡ value (code ok)
    → Granted env message cli digits w
unfolding judge
main-Granted env message cli w digits strict branch h =
    let z = main-Judged env message cli w strict h in
    let o = options_of cli z.lease z.now in
    let r = item-not-routine (or_blank cli.head_ref) digits branch in
    elim (Result-cases (item_args o (or_blank cli.head_ref) (or_blank cli.head_sha))) [
      | inr (x, e) ↦ absurd (ground (arith, r, z.judged))
      | inl (m, e) ↦
          let (n, numbered, t) =
            item_args-some o (or_blank cli.head_ref) (or_blank cli.head_sha) digits m branch e in
          let (v, done, pass) =
            judge-green env message cli o z.body (asked_of cli n z.lease z.now) w z.report r
              (e ∙ ap value t) z.judged z.green in
          record {
            number = n;
            numbered = numbered;
            lease = z.lease;
            leased = z.leased;
            now = z.now;
            given = z.given;
            body = z.body;
            read = z.read;
            verdict = v;
            evaluated = done;
            authorized = pass;
          }
    ]

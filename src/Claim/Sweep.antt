-- ===== src/Claim/Sweep.antt =====
-- check-claim-generation.py `sweep_all`: the verdict of each open pull request again, and the
-- check runs that it revokes.
pub mod Complete
pub mod Counting
pub mod Reads
pub mod Revokes
use fs_quint.Base.{
  ℕ, suc, ◌+◌, Bool, true, false, not, ◌&&◌, Option, none, some, List, [], ◌∷◌, ◌++◌, if◌then◌else◌,
}
use fs_quint.Base.Text.{Text, codes, same, lower}
use fs_quint.Host.{
  Exception, unreachable, gate_error, missing, forbidden, crash, system_exit, Result, value, raised,
  World, Env, Exec, pure, raise, lift, ◌>>=◌, proceed,
}
use fs_quint.Host.Value.{Json, str, obj, Fields, end, field, get_or_null, truthy, as_text}
use fs_quint.Claim.Transport.{gh_api_post}
use fs_quint.Claim.Shape.{is_head_sha}
use fs_quint.Claim.Runs.{check_run_name, open_item_prs, standing_conclusion}
use fs_quint.Claim.Verdict.{Args, Options, Kind, Finding, Verdict, kind, evaluate, item_args}

abbrev pub kind_text : Kind → Text
kind_text Kind.missing = codes "missing"
kind_text Kind.stale = codes "stale"
kind_text Kind.expired = codes "expired"
kind_text Kind.mismatched = codes "mismatched"

abbrev pub success : Text
success = codes "success"

abbrev pub failure : Text
failure = codes "failure"

-- The counters of the loop.
pub record Counts : Type 0 where
  pub looked : ℕ
  pub changed : ℕ
  pub skipped : ℕ
  pub crashed : ℕ

-- How one pull request ended. `unfenced` is no item branch, or no commit to fence.
pub data Outcome : Type 0 where
  unfenced left_alone skips crashes revoked : Outcome

unfoldable pub count : Outcome → Counts → Counts
count unfenced n = n
count left_alone n = record n { looked = n.looked + 1 }
count skips n = record n { looked = n.looked + 1; skipped = n.skipped + 1 }
count crashes n = record n {
  looked = n.looked + 1;
  skipped = n.skipped + 1;
  crashed = n.crashed + 1;
}
count revoked n = record n { looked = n.looked + 1; changed = n.changed + 1 }

-- `pr.get("body") or ""`: a body that is no text fails in the first search of it.
body_of : Json → Result Text
unfolding truthy
body_of (str s) = value s
body_of v = if truthy v then raised crash else value []

-- `except (Forbidden, Unreachable, GateError)`, and `except Exception`.
abbrev pub evaluation_handler : Exception → Exec Outcome
evaluation_handler forbidden = pure skips
evaluation_handler unreachable = pure skips
evaluation_handler gate_error = pure skips
evaluation_handler (system_exit n) = raise (system_exit n)
evaluation_handler _ = pure crashes

-- `except (Missing, Forbidden, Unreachable, GateError)`: a crash goes on.
abbrev read_handler : Exception → Exec Outcome
read_handler missing = pure skips
read_handler forbidden = pure skips
read_handler unreachable = pure skips
read_handler gate_error = pure skips
read_handler e = raise e

-- `try: m`, then `k` behind it, with a handler around `m` alone.
abbrev pub attempt :
    {A : Type 0} → Exec A → (Exception → Exec Outcome) → (A → Exec Outcome) → Exec Outcome
attempt m handler k w =
    let done = m w in
    elim done.result [ value a ↦ k a done.world | raised e ↦ handler e done.world ]

-- What the sweep is asked to do. `message` is the summary that is published with a finding about a
-- pull request, a text that is left out of this development.
pub record Sweep : Type 0 where
  pub options : Options
  pub dry_run : Bool
  pub message : Args → Finding → Text

unfoldable pub payload : Sweep → Args → Text → Finding → Json
unfolding kind
payload s a sha f = obj (
    field (codes "name") (str check_run_name) (
      field (codes "head_sha") (str sha) (
        field (codes "status") (str (codes "completed")) (
          field (codes "conclusion") (str failure) (
            field (codes "output")
              (obj (
                field (codes "title")
                  (str (codes "claim-generation re-evaluated and REVOKED: " ++ kind_text (kind f)))
                  (field (codes "summary") (str (s.message a f)) end)))
              end)))))

module _ (env : Env) (s : Sweep) where
  -- `success` to `failure` is published, and nothing else.
  publish : Args → Text → Finding → Exec Outcome
  unfolding gh_api_post payload
  publish a sha f =
      if s.dry_run
      then pure revoked
      else attempt
          (gh_api_post env (codes "repos/" ++ (s.options.repo ++ codes "/check-runs"))
            (payload s a sha f))
          read_handler (λ _. pure revoked)

  revoke : Args → Text → Option Finding → Option Text → Exec Outcome
  unfolding publish same
  revoke a sha f none = pure left_alone
  revoke a sha none (some standing) = pure left_alone
  revoke a sha (some f) (some standing) =
      if same standing success then publish a sha f else pure left_alone

  judge_again : Args → Text → Verdict → Exec Outcome
  unfolding standing_conclusion revoke
  judge_again a sha v =
      attempt (standing_conclusion env s.options.repo sha) read_handler (revoke a sha v.finding)

  unfoldable pub evaluate_body : Args → Json → Exec Verdict
  unfolding evaluate body_of
  evaluate_body a v w = proceed (body_of v) (evaluate env a) w

  unfoldable pub sweep_item : Args → Text → Json → Exec Outcome
  unfolding evaluate_body judge_again
  sweep_item a sha body = attempt (evaluate_body a body) evaluation_handler (judge_again a sha)

  sweep_fenced : Text → Json → Option Args → Exec Outcome
  unfolding sweep_item
  sweep_fenced sha body none = pure unfenced
  sweep_fenced sha body (some a) = sweep_item a sha body

  sweep_head : Text → Text → Json → Exec Outcome
  unfolding sweep_fenced is_head_sha lower item_args
  sweep_head ref sha body =
      if is_head_sha (lower sha)
      then (do a ← lift (item_args s.options ref sha); sweep_fenced sha body a)
      else pure unfenced

  -- `isinstance(ref, str)` and `isinstance(sha, str)` are part of the guard.
  sweep_named : Json → Option Text → Option Text → Exec Outcome
  unfolding sweep_head
  sweep_named body none sha = pure unfenced
  sweep_named body (some ref) none = pure unfenced
  sweep_named body (some ref) (some sha) = sweep_head ref sha body

  sweep_fields : Fields → Exec Outcome
  unfolding sweep_named as_text get_or_null
  sweep_fields pr =
      sweep_named (get_or_null (codes "body") pr) (as_text (get_or_null (codes "ref") pr))
        (as_text (get_or_null (codes "sha") pr))

  unfoldable pub sweep_pr : Json → Exec Outcome
  unfolding sweep_fields
  sweep_pr (obj pr) = sweep_fields pr
  sweep_pr _ = raise crash

  unfoldable pub sweep_prs : Counts → List Json → Exec Counts
  unfolding sweep_pr count
  sweep_prs n [] = pure n
  sweep_prs n (pr ∷ prs) = do o ← sweep_pr pr; sweep_prs (count o n) prs

  -- The counts of the summary line; the function itself returns `ExitCode.OK` behind it.
  unfoldable pub sweep_all : Exec Counts
  unfolding open_item_prs sweep_prs
  sweep_all = do
    prs ← open_item_prs env s.options.repo
    sweep_prs (record { looked = 0; changed = 0; skipped = 0; crashed = 0 }) prs

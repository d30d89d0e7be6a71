-- ===== src/Claim/Sweep/Reads.antt =====
-- The grounds on which the sweep may create a check run, and the rule for its `try` statements.
use fs_quint.Base.{◌≡◌, refl, false, none, some, ℤ, List, [], ◌∷◌, ◌++◌, ◌⊎◌}
use fs_quint.Base.Text.Decimal.{int_of, show_int}
use fs_quint.Host.Value.{Fields, str, obj, field, end, get_or_null, truthy}
use fs_quint.Host.Logs.{Later}
use fs_quint.Claim.Transport.{gh_api}
use fs_quint.Claim.Comments.{decoded}
use fs_quint.Claim.Shape.{item_branch}
use fs_quint.Claim.Verdict.{Options, kind}
use fs_quint.Claim.Sweep.{kind_text}
use fs_quint.Claim.Transport.Reading.{IsQuery}
use fs_quint.Base.Text.{Text, codes}
use fs_quint.Host.{
  Exception, unreachable, gate_error, missing, forbidden, crash, system_exit, Result, value, raised,
  Event, ran, slept, World, Env, Exec,
}
use fs_quint.Host.Logs.{LogsAt, Logs, Extends-trans, Logs-pure, Logs-raise}
use fs_quint.Host.Value.{Json}
use fs_quint.Claim.Transport.Reading.{IsRead}
use fs_quint.Claim.Verdict.{Args, Finding, Verdict, evaluate}
use fs_quint.Claim.Runs.{Key, run_keys, conclusion_of}
use fs_quint.Base.{Option}
use fs_quint.Claim.Sweep.{Outcome, Sweep, attempt, read_handler, evaluation_handler}

-- What is asked of the item that a branch delivers.
abbrev pub item_of : Options → Text → Text → ℤ → Args
item_of o ref sha n = record {
  repo = o.repo;
  head_ref = ref;
  head_sha = sha;
  item_number = n;
  lease_minutes = o.lease_minutes;
  lease_from_cli = o.lease_from_cli;
  now = o.now;
  expected_item = o.repo ++ (codes "#" ++ show_int n);
}

-- The value is an item of the list.
abbrev pub Among : Json → List Json → Type 0
Among v [] = ⊥
Among v (x ∷ xs) = (v ≡ x) ⊎ Among v xs

-- The command that lists the open pull requests.
abbrev pub pulls_of : Text → List Text
pulls_of repo =
    codes "--paginate"
    ∷ codes "--jq"
    ∷ codes ".[] | {number, body, ref: .head.ref, sha: .head.sha}"
    ∷ (codes "repos/" ++ (repo ++ codes "/pulls?state=open&per_page=100"))
    ∷ []

-- A pull request that the sweep, started at w, found in its listing of the open ones.
pub record IsPull (env : Env) (s : Sweep) (w : World) (ref sha : Text) (body : Json) : Type 0 where
  pub printed : Text
  pub answered : (gh_api env (pulls_of s.options.repo) w).result ≡ value printed
  pub pull : Fields
  pub among : Among (obj pull) (decoded env printed)
  pub ref_field : get_or_null (codes "ref") pull ≡ str ref
  pub sha_field : get_or_null (codes "sha") pull ≡ str sha
  pub body_field : get_or_null (codes "body") pull ≡ body

-- The text of a body, where an empty value stands for no text.
abbrev pub IsBody : Json → Text → Type 0
IsBody v t = (v ≡ str t) ⊎ ((truthy v ≡ false) × (t ≡ []))

-- The standing conclusion of the commit, as one listing of its check runs of this gate has it.
pub record IsNewest (env : Env) (repo sha : Text) (w : World) (conclusion : Option Text)
    : Type 0 where
  pub printed : Text
  pub answered :
      (gh_api env
        (codes "--jq"
          ∷ codes ".check_runs[] | {id, conclusion, started_at}"
          ∷ (codes "repos/"
              ++ (repo
                  ++ (codes "/commits/"
                      ++ (sha ++ codes "/check-runs?check_name=claim-generation&per_page=100"))))
          ∷ [])
        w).result
      ≡ value printed
  pub runs : List (Key × Json)
  pub keyed : run_keys env (decoded env printed) ≡ value runs
  pub newest : conclusion ≡ conclusion_of runs

-- Why a commit may lose its `success`: it is the head of an open pull request on an item branch; the
-- verdict on the body of that pull request, evaluated again in the sweep for the item of the branch,
-- was a finding; and the standing conclusion, read right behind it, was `success`.
pub record Grounds (env : Env) (s : Sweep) (w : World) (args : Args) (sha : Text)
    (finding : Finding) : Type 0 where
  pub ref : Text
  pub content : Json
  pub open_pull : IsPull env s w ref sha content
  pub digits : Text
  pub branch : item_branch ref ≡ some digits
  pub number : ℤ
  pub numbered : int_of digits ≡ some number
  pub item : args ≡ item_of s.options ref sha number
  pub body : Text
  pub is_body : IsBody content body
  pub at_evaluation : World
  pub since : Later w at_evaluation
  pub verdict : Verdict
  pub evaluated : (evaluate env args body at_evaluation).result ≡ value verdict
  pub refuses : verdict.finding ≡ some finding
  pub stands :
      IsNewest env s.options.repo sha
        (evaluate env args body at_evaluation).world
        (some (codes "success"))

-- The check run that revokes a success.
abbrev pub failed_run : Sweep → Args → Text → Finding → Json
failed_run s a sha f = obj (
    field (codes "name") (str (codes "claim-generation")) (
      field (codes "head_sha") (str sha) (
        field (codes "status") (str (codes "completed")) (
          field (codes "conclusion") (str (codes "failure")) (
            field (codes "output")
              (obj (
                field (codes "title")
                  (str (codes "claim-generation re-evaluated and REVOKED: " ++ kind_text (kind f)))
                  (field (codes "summary") (str (s.message a f)) end)))
              end)))))

-- The command that creates a check run.
abbrev pub posting : Sweep → List Text
posting s =
    codes "gh"
    ∷ codes "api"
    ∷ codes "-X"
    ∷ codes "POST"
    ∷ (codes "repos/" ++ (s.options.repo ++ codes "/check-runs"))
    ∷ codes "--input"
    ∷ codes "-"
    ∷ []

-- A check run that the sweep may create.
pub record Revocation (env : Env) (s : Sweep) (w : World) (argv : List Text) (input : Json)
    : Type 0 where
  pub wet : s.dry_run ≡ false
  pub args : Args
  pub sha : Text
  pub finding : Finding
  pub grounds : Grounds env s w args sha finding
  pub command : argv ≡ posting s
  pub posted : input ≡ failed_run s args sha finding

abbrev pub Publishes : Env → Sweep → World → Event → Type 0
Publishes env s w (ran argv none) = IsQuery argv
Publishes env s w (ran argv (some input)) = Revocation env s w argv input
Publishes env s w (slept k) = Unit

pub reads : (env : Env) (s : Sweep) (w : World) (x : Event) → IsRead x → Publishes env s w x
reads env s w (ran argv none) h = h
reads env s w (ran argv (some input)) h = absurd h
reads env s w (slept k) h = tt

module _ {P : Event → Type 0} {A : Type 0} (handler : Exception → Exec Outcome)
    (k : A → Exec Outcome) where
  settle-LogsAt :
      (r : Result A) (w : World)
      → ((e : Exception) → Logs P (handler e))
      → ((a : A) → r ≡ value a → LogsAt P (k a) w)
      → LogsAt P {A = Outcome} (λ v. elim r [ value a ↦ k a v | raised e ↦ handler e v ]) w
  settle-LogsAt (value a) w h f = record { grows = (f a refl).grows }
  settle-LogsAt (raised e) w h f = record { grows = ((h e).at w).grows }

  -- What runs behind a `try` may use what was read in it.
  pub attempt-LogsAt :
      (m : Exec A) (w : World)
      → LogsAt P m w
      → ((e : Exception) → Logs P (handler e))
      → ((a : A) → (m w).result ≡ value a → LogsAt P (k a) (m w).world)
      → LogsAt P (attempt m handler k) w
  attempt-LogsAt m w l h f = record {
    grows =
        Extends-trans w (m w).world (attempt m handler k w).world l.grows
          (settle-LogsAt (m w).result (m w).world h f).grows;
  }

module _ {P : Event → Type 0} where
  pub read_handler-Logs : (e : Exception) → Logs P (read_handler e)
  read_handler-Logs missing = Logs-pure _
  read_handler-Logs forbidden = Logs-pure _
  read_handler-Logs unreachable = Logs-pure _
  read_handler-Logs gate_error = Logs-pure _
  read_handler-Logs crash = Logs-raise Outcome crash
  read_handler-Logs (system_exit n) = Logs-raise Outcome (system_exit n)

  pub evaluation_handler-Logs : (e : Exception) → Logs P (evaluation_handler e)
  evaluation_handler-Logs missing = Logs-pure _
  evaluation_handler-Logs forbidden = Logs-pure _
  evaluation_handler-Logs unreachable = Logs-pure _
  evaluation_handler-Logs gate_error = Logs-pure _
  evaluation_handler-Logs crash = Logs-pure _
  evaluation_handler-Logs (system_exit n) = Logs-raise Outcome (system_exit n)

-- ===== src/Telemetry/Main.antt =====
-- roadmap-telemetry.py `main`, behind the parser and `discover_config`: one handler per command, all but
-- `population-only`, whose state file has another shape.
use fs_quint.Base.{ℕ, ℤ, pos, Option, List, [], ◌∷◌, ◌++◌, map, eqb_ℤ, if◌then◌else◌}
use fs_quint.Base.Text.{Text, codes}
use fs_quint.Usage.{Fault, host_unavailable, crash, Tried, done, threw}
use fs_quint.Telemetry.Machine.{Log, Act, pure, lift, completed, Completed, ◌>>=◌}
use fs_quint.Telemetry.Host.{HostConfig, Env}
use fs_quint.Telemetry.Command.{text_of, run}
use fs_quint.Telemetry.Descent.{BeginArgs, Reply}
use fs_quint.Telemetry.Begin.{begin}
use fs_quint.Telemetry.Lifecycle.{Finished, Reconciled, start_dispatch, finish, usage_reconcile}
use fs_quint.Telemetry.Observed.{Scope}
use fs_quint.Telemetry.Observations.{Recorded, review, activity, attribution, complication}
use fs_quint.Telemetry.CiAssignment.{Assigned}
use fs_quint.Telemetry.CiAssignment.Create.{create_ci}

pub data Command : Type 0 where
  begin_dispatch : BeginArgs → Command
  report_started : Text → Text → Command
  report_finish : Text → Text → Option ℤ → Command
  reconcile : Text → Command
  report_review : Text → Scope → Text → Command
  report_activity : Text → Text → Command
  report_attribution : Text → Text → Command
  report_complication : Text → Text → Command
  ci_assignment : Assigned → Command
  ask_status : Command

pub data Output : Type 0 where
  replied : Reply → Output
  finished : Finished → Output
  reconciled : Reconciled → Output
  recorded : Recorded → Output
  assigned : Text → Output
  ready unavailable : Output

-- The exit code, or an exception that is not caught.
pub data Exit : Type 0 where
  exit : ℕ → Exit
  uncaught : Fault → Exit

module _ (env : Env) (config : HostConfig) where
  unfoldable pub status_command : List Text
  unfolding text_of
  status_command =
      if config.workspace
      then config.engine ∷ map codes ("telemetry" ∷ "workspace" ∷ "status" ∷ "--config" ∷ [])
        ++ (config.path ∷ codes "--repository" ∷ text_of config.repository ∷ [])
      else config.engine ∷ map codes ("telemetry" ∷ "store" ∷ "status" ∷ "--store-root" ∷ [])
        ++ (config.store_root ∷ [])

  unfoldable pub status_of : Completed → Output
  status_of c = if eqb_ℤ c.status (pos 0) then ready else unavailable

  unfoldable pub handler : Command → Act Unit Output
  unfolding begin start_dispatch finish usage_reconcile review activity attribution complication
      create_ci status_command status_of run completed
  handler (begin_dispatch args) = begin env config args >>= λ r. pure (replied r)
  handler (report_started token native) =
      start_dispatch env config token native >>= λ r. pure (replied r)
  handler (report_finish token outcome code) =
      finish env config token outcome code >>= λ r. pure (finished r)
  handler (reconcile token) = usage_reconcile env config token >>= λ r. pure (reconciled r)
  handler (report_review token scope path) =
      review env config token scope path >>= λ r. pure (recorded r)
  handler (report_activity token path) = activity env config token path >>= λ r. pure (recorded r)
  handler (report_attribution token path) =
      attribution env config token path >>= λ r. pure (recorded r)
  handler (report_complication token path) =
      complication env config token path >>= λ r. pure (recorded r)
  handler (ci_assignment a) = create_ci env config a >>= λ name. pure (assigned name)
  handler ask_status =
      run env status_command >>= λ p. lift (completed p) >>= λ c. pure (status_of c)

  exit_of : Tried Output → Exit
  exit_of (done unavailable) = exit 1
  exit_of (done o) = exit 0
  exit_of (threw crash) = uncaught crash
  exit_of (threw host_unavailable) = uncaught host_unavailable
  exit_of (threw f) = exit 1

  -- The exit code of a command, and the log behind it.
  unfoldable pub main : Command → Log → Exit × Log
  unfolding handler exit_of
  main command w = (exit_of (handler command tt w).result, (handler command tt w).log)

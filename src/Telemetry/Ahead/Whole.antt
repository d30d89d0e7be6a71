-- ===== src/Telemetry/Ahead/Whole.antt =====
-- The script keeps the discipline, whatever its command and however it ends.
use fs_quint.Usage.{Tried, done, threw}
use fs_quint.Telemetry.Machine.{Log, Act, pure, lift, completed, ◌>>=◌}
use fs_quint.Telemetry.Host.{HostConfig, Env}
use fs_quint.Telemetry.Command.{run}
use fs_quint.Telemetry.Begin.{begin}
use fs_quint.Telemetry.Lifecycle.{start_dispatch, finish, usage_reconcile}
use fs_quint.Telemetry.Observations.{review, activity, attribution, complication}
use fs_quint.Telemetry.Main.{
  Command, begin_dispatch, report_started, report_finish, reconcile, report_review, report_activity,
  report_attribution, report_complication, ci_assignment, ask_status, Output, replied, finished,
  reconciled, recorded, assigned, handler, main, status_command, status_of,
}
use fs_quint.Telemetry.Runs.{After, Runs-pure, Runs-lift}
use fs_quint.Telemetry.Ahead.{Ahead}
use fs_quint.Telemetry.Ahead.Operations.{Keeps, Keeps->>=, run-Keeps}
use fs_quint.Telemetry.Ahead.Commands.{
  start_dispatch-Keeps, finish-Keeps, usage_reconcile-Keeps, review-Keeps, activity-Keeps,
  attribution-Keeps, complication-Keeps,
}
use fs_quint.Telemetry.Ahead.Assigning.{create_ci-Keeps}
use fs_quint.Telemetry.CiAssignment.Create.{create_ci}
use fs_quint.Telemetry.Ahead.Beginning.{Unused, begin-Keeps}

module _ (env : Env) (config : HostConfig) where
  printed-Keeps :
      {A : Type 0} (m : Act Unit A) (f : A → Output) (w : Log)
      → Keeps m w
      → Keeps (m >>= λ r. pure (f r)) w
  printed-Keeps m f w h = Keeps->>= m (λ r. pure (f r)) w h (λ r v a. Runs-pure (f r) tt v a)

  handler-Keeps : (c : Command) (w : Log) → Unused env → Ahead w → Keeps (handler env config c) w
  unfolding handler
  handler-Keeps (begin_dispatch args) w u a =
      printed-Keeps (begin env config args) replied w (begin-Keeps env config args w u a)
  handler-Keeps (report_started token native) w u a =
      printed-Keeps (start_dispatch env config token native) replied w
        (start_dispatch-Keeps env config token native w a)
  handler-Keeps (report_finish token outcome code) w u a =
      printed-Keeps (finish env config token outcome code) finished w
        (finish-Keeps env config token outcome code w a)
  handler-Keeps (reconcile token) w u a =
      printed-Keeps (usage_reconcile env config token) reconciled w
        (usage_reconcile-Keeps env config token w a)
  handler-Keeps (report_review token scope path) w u a =
      printed-Keeps (review env config token scope path) recorded w
        (review-Keeps env config token scope path w a)
  handler-Keeps (report_activity token path) w u a =
      printed-Keeps (activity env config token path) recorded w
        (activity-Keeps env config token path w a)
  handler-Keeps (report_attribution token path) w u a =
      printed-Keeps (attribution env config token path) recorded w
        (attribution-Keeps env config token path w a)
  handler-Keeps (report_complication token path) w u a =
      printed-Keeps (complication env config token path) recorded w
        (complication-Keeps env config token path w a)
  handler-Keeps (ci_assignment x) w u a =
      printed-Keeps (create_ci env config x) assigned w (create_ci-Keeps env config x w a)
  handler-Keeps ask_status w u a =
      Keeps->>= (run env (status_command env config)) _ w (run-Keeps env config _ w a) (λ p v b.
        Keeps->>= (lift (completed p)) (λ c. pure (status_of env config c)) v
          (Runs-lift (completed p) tt v (λ c h. b) (λ f. b))
          (λ c x d. Runs-pure (status_of env config c) tt x d))

-- Every command keeps the write-ahead discipline of the log: each batch that goes out is the one in
-- the state file of its token, and each save of a state follows the one in its file by a legal step.
pub main-Ahead :
    (env : Env) (config : HostConfig) (c : Command) (w : Log)
    → Unused env
    → Ahead w
    → Ahead (main env config c w).1
unfolding main
main-Ahead env config c w u a =
    after_any (handler env config c tt w).result (handler env config c tt w).log
      (handler-Keeps env config c w u a).after
  where
    after_any :
        (r : Tried Output) (v : Log)
        → After {S = Unit {0}} (λ x s. Ahead) (λ f s. Ahead) r tt v
        → Ahead v
    after_any (done x) v h = h
    after_any (threw f) v h = h

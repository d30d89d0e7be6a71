-- ===== src/Telemetry/Lifecycle.antt =====
-- roadmap-telemetry.py `started`, `finish`, `usage_reconcile` and `refresh_dashboard`.
use fs_quint.Base.{ℤ, pos, Bool, false, ◌&&◌, Option, none, some, ltb_ℤ, eqb_ℤ, if◌then◌else◌}
use fs_quint.Base.Text.{Text, codes, same}
use fs_quint.Usage.{Fault, configuration}
use fs_quint.Telemetry.Machine.{
  Phase, expected, start_pending, started, terminal_pending, terminal, root, State, Act, pure,
  raise, lift, inspect, observe, modify, using, catch, completed, Completed, ◌>>=◌, ◌>>◌,
}
use fs_quint.Telemetry.Host.{Env, HostConfig}
use fs_quint.Telemetry.Command.{drain_command, run}
use fs_quint.Telemetry.Identity.{validate_identity}
use fs_quint.Telemetry.Events.{started_events, finish_events}
use fs_quint.Telemetry.Files.{read_state, save_state, same_option}
use fs_quint.Telemetry.Matching.{same_relation}
use fs_quint.Telemetry.Descent.{Reply, prospective_coverage}
use fs_quint.Telemetry.Publish.{publish, publish_pending, same_phase}
use fs_quint.Telemetry.Reconcile.{Coverage, unknown, reconcile_usage}
use fs_quint.Telemetry.Dashboard.{Dashboard, refresh_dashboard}

-- The state of a dispatch that starts, and of one that ends.
unfoldable pub start : Text → State → State
start native d = record d { phase = start_pending; native_id = some native }

unfoldable pub conclude : Text → ℤ → State → State
conclude outcome code d = record d {
  phase = terminal_pending;
  outcome = some outcome;
  exit_code = some code;
}

unfoldable pub set_exit : ℤ → State → State
set_exit code d = record d { exit_code = some code }

unfoldable pub same_exit : Option ℤ → ℤ → Bool
same_exit none code = false
same_exit (some n) code = eqb_ℤ n code

-- The exit code that is given, or that of the outcome.
unfoldable pub exit_code_of : Option ℤ → Text → ℤ
unfolding same
exit_code_of (some n) outcome = n
exit_code_of none outcome = if same outcome (codes "completed") then pos 0 else pos 1

module _ (env : Env) (config : HostConfig) where
  unfoldable pub publish_start_at : Text → State → Text → Act State Unit
  unfolding start publish started_events
  publish_start_at native d timestamp =
      modify (start native)
      >> publish env config (codes "started") started (started_events d native timestamp)

  unfoldable pub publish_start_in : Text → State → Act State Unit
  unfolding publish_start_at
  publish_start_in native d = observe env.now >>= publish_start_at native d

  -- What `started` does in each phase; a retry names the same child.
  unfoldable pub start_in : Phase → Text → State → Act State Unit
  unfolding same_option publish_pending publish_start_in
  start_in started native d =
      if same_option d.native_id (some native) then pure tt else raise configuration
  start_in start_pending native d =
      if same_option d.native_id (some native)
      then publish_pending env config
      else raise configuration
  start_in expected native d = publish_start_in native d
  start_in _ native d = raise configuration

  unfoldable pub start_child : Text → State → Act State Unit
  unfolding start_in
  start_child native d = start_in d.phase native d

  unfoldable pub start_dispatch : Text → Text → Act Unit Reply
  unfolding read_state validate_identity start_child prospective_coverage
  start_dispatch token native = do
    d ← read_state env config token
    name ← lift (validate_identity native)
    using d (start_child name d)
    pure (record { token = token; coverage = prospective_coverage d })

  -- An older terminal state has no exit code; only a retry that gives none may add it.
  unfoldable pub add_exit : Option ℤ → Text → Act State Unit
  unfolding exit_code_of set_exit save_state
  add_exit (some n) outcome = raise configuration
  add_exit none outcome = modify (set_exit (exit_code_of none outcome)) >> save_state env

  unfoldable pub legacy_in : Option ℤ → Phase → Option ℤ → Text → Act State Unit
  unfolding add_exit
  legacy_in none terminal given outcome = add_exit given outcome
  legacy_in _ _ given outcome = pure tt

  unfoldable pub repeat_in : Option ℤ → Text → State → Act State Unit
  unfolding same_option same_exit exit_code_of same_phase publish_pending
  repeat_in given outcome d =
      if same_option d.outcome (some outcome) && same_exit d.exit_code (exit_code_of given outcome)
      then (if same_phase d.phase terminal_pending then publish_pending env config else pure tt)
      else raise configuration

  unfoldable pub repeat_finish : Option ℤ → Text → State → Act State Unit
  unfolding legacy_in repeat_in
  repeat_finish given outcome d =
      legacy_in d.exit_code d.phase given outcome >> inspect (repeat_in given outcome)

  unfoldable pub publish_finish_at : Option ℤ → Text → State → Text → Act State Unit
  unfolding exit_code_of conclude publish finish_events
  publish_finish_at given outcome d timestamp =
      modify (conclude outcome (exit_code_of given outcome))
      >> publish env config (codes "finish") terminal
          (finish_events d outcome (exit_code_of given outcome) timestamp)

  unfoldable pub publish_finish_in : Option ℤ → Text → State → Act State Unit
  unfolding publish_finish_at
  publish_finish_in given outcome d = observe env.now >>= publish_finish_at given outcome d

  unfoldable pub finish_in : Phase → Option ℤ → Text → State → Act State Unit
  unfolding repeat_finish publish_finish_in
  finish_in terminal given outcome d = repeat_finish given outcome d
  finish_in terminal_pending given outcome d = repeat_finish given outcome d
  finish_in started given outcome d = publish_finish_in given outcome d
  finish_in _ given outcome d = raise configuration

  -- `except ConfigurationError`
  unfoldable pub or_unknown : Fault → Act State Coverage
  or_unknown configuration = pure unknown
  or_unknown f = raise f

  unfoldable pub finish_child : Option ℤ → Text → State → Act State Coverage
  unfolding finish_in reconcile_usage or_unknown
  finish_child given outcome d =
      finish_in d.phase given outcome d >> catch (reconcile_usage env config) or_unknown

  unfoldable pub drain : {S : Type 0} → Act S Completed
  unfolding drain_command run completed
  drain = drain_command env config >>= λ argv. run env argv >>= λ p. lift (completed p)

  unfoldable pub is_drained : Completed → Bool
  is_drained c = eqb_ℤ c.status (pos 0)

  unfoldable pub dashboard_if : Bool → Act Unit (Option Dashboard)
  unfolding refresh_dashboard
  dashboard_if b = if b then (refresh_dashboard env config >>= λ r. pure (some r)) else pure none

pub record Finished : Type 0 where
  pub token : Text
  pub outcome : Text
  pub coverage : Coverage
  pub drained : Bool
  pub dashboard : Option Dashboard

pub record Reconciled : Type 0 where
  pub token : Text
  pub coverage : Coverage
  pub drained : Bool

module _ (env : Env) (config : HostConfig) where
  unfoldable pub finish : Text → Text → Option ℤ → Act Unit Finished
  unfolding read_state exit_code_of finish_child drain is_drained dashboard_if same_relation same
  finish token outcome given = do
    d ← read_state env config token
    if ltb_ℤ (exit_code_of given outcome) (pos 0) then raise configuration else pure tt
    coverage ← using d (finish_child env config given outcome d)
    c ← drain env config
    dashboard ← dashboard_if env config (
        is_drained env config c
        && same outcome (codes "completed")
        && same_relation d.identity.relation root)
    pure (record {
      token = token;
      outcome = outcome;
      coverage = coverage;
      drained = is_drained env config c;
      dashboard = dashboard;
    })

  unfoldable pub usage_reconcile : Text → Act Unit Reconciled
  unfolding read_state reconcile_usage drain is_drained
  usage_reconcile token = do
    d ← read_state env config token
    coverage ← using d (reconcile_usage env config)
    c ← drain env config
    pure (record { token = token; coverage = coverage; drained = is_drained env config c })

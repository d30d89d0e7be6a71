-- ===== src/Telemetry/Ahead/Lifecycles.antt =====
-- Starting and finishing a dispatch keeps the discipline.
use fs_quint.Base.{◌≡◌, refl, sym, ap, ◌∙◌, subst, true, ◌&&◌, ℤ, Option, none, some}
use fs_quint.Base.Text.{Text, codes}
use fs_quint.Usage.{Fault, configuration, host_unavailable, os_error, subprocess_error, crash}
use fs_quint.Telemetry.Machine.{
  Phase, begin_pending, expected, start_pending, started, terminal_pending, terminal, State, Log,
}
use fs_quint.Telemetry.Host.{Env, HostConfig}
use fs_quint.Telemetry.Events.{started_events, finish_events}
use fs_quint.Telemetry.Files.{same_option}
use fs_quint.Telemetry.Publish.{same_phase}
use fs_quint.Telemetry.Reconcile.{unknown, reconcile_usage}
use fs_quint.Telemetry.Lifecycle.{
  start, conclude, set_exit, same_exit, exit_code_of, publish_start_at, publish_start_in, start_in,
  start_child, add_exit, legacy_in, repeat_in, repeat_finish, publish_finish_at, publish_finish_in,
  finish_in, or_unknown, finish_child,
}
use fs_quint.Telemetry.Runs.{
  Runs, Runs-weaken, Runs-pure, Runs-raise, Runs-if, Runs->>=, Runs-inspect, Runs-catch,
  Runs-observe, Runs-modify,
}
use fs_quint.Telemetry.Ahead.{Ahead, Synced, fits, climbs}
use fs_quint.Telemetry.Ahead.Sending.{Ready}
use fs_quint.Telemetry.Ahead.Finishing.{publish-Ahead}
use fs_quint.Telemetry.Ahead.Reconciling.{
  Steps, Steps->>=, save_state-Steps, publish_pending-Steps, reconcile_usage-Steps,
}

-- A phase may climb before its publication.
start-Ready :
    (native : Text) (d : State) (w : Log)
    → Synced d w
    → d.phase ≡ expected
    → Ready (start native d) w started
unfolding start fits climbs
start-Ready native d w s e = record {
  ahead = s.ahead;
  sequence = ap (λ k. k.sequence) s.agrees;
  pending = ap (λ k. k.pending) s.agrees;
  climb = subst (λ p. climbs p start_pending ≡ true) (sym (ap (λ k. k.phase) s.agrees ∙ e)) refl;
  goal = refl;
  invocation = ap (λ k. k.invocation) s.agrees;
}

conclude-Ready :
    (outcome : Text) (code : ℤ) (d : State) (w : Log)
    → Synced d w
    → d.phase ≡ started
    → Ready (conclude outcome code d) w terminal
unfolding conclude fits climbs
conclude-Ready outcome code d w s e = record {
  ahead = s.ahead;
  sequence = ap (λ k. k.sequence) s.agrees;
  pending = ap (λ k. k.pending) s.agrees;
  climb = subst (λ p. climbs p terminal_pending ≡ true) (sym (ap (λ k. k.phase) s.agrees ∙ e)) refl;
  goal = refl;
  invocation = ap (λ k. k.invocation) s.agrees;
}

module _ (env : Env) (config : HostConfig) where
  start_in-Steps :
      (p : Phase) (native : Text) (d : State) (w : Log)
      → d.phase ≡ p
      → Synced d w
      → Steps (start_in env config p native d) d w
  unfolding start_in publish_start_in publish_start_at
  start_in-Steps started native d w e s =
      Runs-if (same_option d.native_id (some native)) _ _ d w (λ h. Runs-pure tt d w s)
        (λ h. Runs-raise configuration d w s.ahead)
  start_in-Steps start_pending native d w e s =
      Runs-if (same_option d.native_id (some native)) _ _ d w
        (λ h. publish_pending-Steps env config d w s) (λ h. Runs-raise configuration d w s.ahead)
  start_in-Steps expected native d w e s =
      Runs-observe env.now (publish_start_at env config native d) d w (
        Runs-modify (start native) _ d w (
          publish-Ahead env config (codes "started") started (started_events d native (env.now w))
            (start native d) w (start-Ready native d w s e)))
  start_in-Steps begin_pending native d w e s = Runs-raise configuration d w s.ahead
  start_in-Steps terminal_pending native d w e s = Runs-raise configuration d w s.ahead
  start_in-Steps terminal native d w e s = Runs-raise configuration d w s.ahead

  pub start_child-Steps :
      (native : Text) (d : State) (w : Log)
      → Synced d w
      → Steps (start_child env config native d) d w
  unfolding start_child
  start_child-Steps native d w s = start_in-Steps d.phase native d w refl s

  add_exit-Steps :
      (given : Option ℤ) (outcome : Text) (d : State) (w : Log)
      → Synced d w
      → Steps (add_exit env config given outcome) d w
  unfolding add_exit set_exit
  add_exit-Steps (some n) outcome d w s = Runs-raise configuration d w s.ahead
  add_exit-Steps none outcome d w s = save_state-Steps env (set_exit _) d w refl refl s

  legacy_in-Steps :
      (code : Option ℤ) (p : Phase) (given : Option ℤ) (outcome : Text) (d : State) (w : Log)
      → Synced d w
      → Steps (legacy_in env config code p given outcome) d w
  unfolding legacy_in
  legacy_in-Steps none terminal given outcome d w s = add_exit-Steps given outcome d w s
  legacy_in-Steps none begin_pending given outcome d w s = Runs-pure tt d w s
  legacy_in-Steps none expected given outcome d w s = Runs-pure tt d w s
  legacy_in-Steps none start_pending given outcome d w s = Runs-pure tt d w s
  legacy_in-Steps none started given outcome d w s = Runs-pure tt d w s
  legacy_in-Steps none terminal_pending given outcome d w s = Runs-pure tt d w s
  legacy_in-Steps (some n) p given outcome d w s = Runs-pure tt d w s

  repeat_finish-Steps :
      (given : Option ℤ) (outcome : Text) (d : State) (w : Log)
      → Synced d w
      → Steps (repeat_finish env config given outcome d) d w
  unfolding repeat_finish repeat_in
  repeat_finish-Steps given outcome d w s =
      Steps->>= (legacy_in env config d.exit_code d.phase given outcome) _ d w
        (legacy_in-Steps d.exit_code d.phase given outcome d w s)
        (λ a t v r. Runs-inspect (repeat_in env config given outcome) t v (
          Runs-if
            (same_option t.outcome (some outcome)
              && same_exit t.exit_code (exit_code_of given outcome))
            _ _ t v
            (λ h.
              Runs-if (same_phase t.phase terminal_pending) _ _ t v
                (λ k. publish_pending-Steps env config t v r) (λ k. Runs-pure tt t v r))
            (λ h. Runs-raise configuration t v r.ahead)))

  finish_in-Steps :
      (p : Phase) (given : Option ℤ) (outcome : Text) (d : State) (w : Log)
      → d.phase ≡ p
      → Synced d w
      → Steps (finish_in env config p given outcome d) d w
  unfolding finish_in publish_finish_in publish_finish_at
  finish_in-Steps terminal given outcome d w e s = repeat_finish-Steps given outcome d w s
  finish_in-Steps terminal_pending given outcome d w e s = repeat_finish-Steps given outcome d w s
  finish_in-Steps started given outcome d w e s =
      Runs-observe env.now (publish_finish_at env config given outcome d) d w (
        Runs-modify (conclude outcome (exit_code_of given outcome)) _ d w (
          publish-Ahead env config (codes "finish") terminal
            (finish_events d outcome (exit_code_of given outcome) (env.now w))
            (conclude outcome (exit_code_of given outcome) d) w
            (conclude-Ready outcome (exit_code_of given outcome) d w s e)))
  finish_in-Steps begin_pending given outcome d w e s = Runs-raise configuration d w s.ahead
  finish_in-Steps expected given outcome d w e s = Runs-raise configuration d w s.ahead
  finish_in-Steps start_pending given outcome d w e s = Runs-raise configuration d w s.ahead

  or_unknown-Runs :
      (f : Fault) (d : State) (w : Log)
      → Ahead w
      → Runs (λ a e. Ahead) (λ g e. Ahead) (or_unknown env config f) d w
  unfolding or_unknown
  or_unknown-Runs configuration d w a = Runs-pure unknown d w a
  or_unknown-Runs host_unavailable d w a = Runs-raise host_unavailable d w a
  or_unknown-Runs os_error d w a = Runs-raise os_error d w a
  or_unknown-Runs subprocess_error d w a = Runs-raise subprocess_error d w a
  or_unknown-Runs crash d w a = Runs-raise crash d w a

  pub finish_child-Runs :
      (given : Option ℤ) (outcome : Text) (d : State) (w : Log)
      → Synced d w
      → Runs (λ a e. Ahead) (λ g e. Ahead) (finish_child env config given outcome d) d w
  unfolding finish_child
  finish_child-Runs given outcome d w s =
      Runs->>= (λ a. Synced) (finish_in env config d.phase given outcome d) _ d w
        (finish_in-Steps d.phase given outcome d w refl s)
        (λ a t v r.
          Runs-catch (λ f e. Ahead) (reconcile_usage env config) (or_unknown env config) t v
            (Runs-weaken (reconcile_usage env config) t v (reconcile_usage-Steps env config t v r)
              (λ c e u q. q.ahead) (λ f e u q. q))
            or_unknown-Runs)

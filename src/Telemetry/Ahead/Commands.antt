-- ===== src/Telemetry/Ahead/Commands.antt =====
-- Every command keeps the discipline.
use fs_quint.Base.{true, false, ◌&&◌, Bool, Option, List, ◌∷◌, ℤ, pos, ltb_ℤ, if◌then◌else◌}
use fs_quint.Base.Text.{Text, codes, same}
use fs_quint.Host.Value.{Fields}
use fs_quint.Usage.{Tried, configuration, done, threw}
use fs_quint.Telemetry.Machine.{
  terminal, State, Log, root, Act, pure, raise, lift, using, ◌>>=◌, ◌>>◌,
}
use fs_quint.Telemetry.Host.{Env, HostConfig}
use fs_quint.Telemetry.Files.{read_state}
use fs_quint.Telemetry.Identity.{validate_identity}
use fs_quint.Telemetry.Lifecycle.{
  drain, dashboard_if, is_drained, start_dispatch, start_child, exit_code_of, finish, finish_child,
  usage_reconcile,
}
use fs_quint.Telemetry.Publish.{same_phase}
use fs_quint.Telemetry.Observations.{
  record_event, recorded, read_contract, contract, contracted, review, review_with, activity,
  activity_with, attribution, attribution_with, complication, complication_with,
}
use fs_quint.Telemetry.Dashboard.{Dashboard}
use fs_quint.Telemetry.Matching.{same_relation}
use fs_quint.Telemetry.Observed.{
  Scope, review_allowed, is_open, Publication, review_publication, activity_publication,
  attribution_publication, complication_publication, review_schema, activity_schema,
  attribution_schema, complication_schema, review_fields, activity_fields, attribution_fields,
  complication_fields,
}
use fs_quint.Telemetry.Reconcile.{reconcile_usage}
use fs_quint.Telemetry.Runs.{Runs, Runs-weaken, Runs-pure, Runs->>=}
use fs_quint.Telemetry.Ahead.{Ahead, Synced}
use fs_quint.Telemetry.Ahead.Operations.{
  Keeps, Keeps->>=, using-Keeps, read_state-IsRead, IsRead, drain-Keeps, dashboard_if-Keeps,
}
use fs_quint.Telemetry.Ahead.Lifecycles.{start_child-Steps, finish_child-Runs}
use fs_quint.Telemetry.Ahead.Reconciling.{Steps, reconcile_usage-Steps, observe_event-Steps}

pub Steps-Ahead :
    {A : Type 0} (m : Act State A) (d : State) (w : Log)
    → Steps m d w
    → Runs (λ a e. Ahead) (λ f e. Ahead) m d w
Steps-Ahead m d w h = Runs-weaken m d w h (λ a e v s. s.ahead) (λ f e v a. a)

module _ (env : Env) (config : HostConfig) where
  -- A command that works on a state that it reads.
  pub with_state-Keeps :
      {A : Type 0} (token : Text) (f : State → Act Unit A) (w : Log)
      → Ahead w
      → ((d : State) (v : Log) → Synced d v → Keeps (f d) v)
      → Keeps (read_state env config token >>= f) w
  with_state-Keeps token f w a k =
      Runs->>= (λ d s. IsRead w d) (read_state env config token) f tt w
        (read_state-IsRead env config token w a) (λ d s v r. k d v r.synced)

  pub lift-Keeps :
      {A B : Type 0} (r : Tried A) (f : A → Act Unit B) (w : Log)
      → Ahead w
      → ((a : A) → Keeps (f a) w)
      → Keeps (lift r >>= f) w
  lift-Keeps (done x) f w a k = record { after = (k x).after }
  lift-Keeps (threw g) f w a k = record { after = a }

  pub guard-Keeps :
      {A : Type 0} (b : Bool) (m : Act Unit A) (w : Log)
      → Ahead w
      → Keeps m w
      → Keeps ((if b then pure tt else raise configuration) >> m) w
  guard-Keeps true m w a k = record { after = k.after }
  guard-Keeps false m w a k = record { after = a }

  refuse-Keeps :
      {A : Type 0} (b : Bool) (m : Act Unit A) (w : Log)
      → Ahead w
      → Keeps m w
      → Keeps ((if b then raise configuration else pure tt) >> m) w
  refuse-Keeps true m w a k = record { after = a }
  refuse-Keeps false m w a k = record { after = k.after }

  dashboard-Keeps :
      {A : Type 0} (b : Bool) (f : Option Dashboard → A) (w : Log)
      → Ahead w
      → Keeps (dashboard_if env config b >>= λ h. pure (f h)) w
  dashboard-Keeps b f w a =
      Keeps->>= (dashboard_if env config b) (λ h. pure (f h)) w
        (dashboard_if-Keeps env config b w a) (λ h v c. Runs-pure (f h) tt v c)

  pub start_dispatch-Keeps :
      (token native : Text) (w : Log) → Ahead w → Keeps (start_dispatch env config token native) w
  unfolding start_dispatch
  start_dispatch-Keeps token native w a = with_state-Keeps token _ w a (λ d v s.
      lift-Keeps (validate_identity native) _ v s.ahead (λ name.
        Keeps->>= (using d (start_child env config name d)) _ v
          (using-Keeps (start_child env config name d) d v
            (Steps-Ahead _ d v (start_child-Steps env config name d v s)))
          (λ u x b. Runs-pure _ tt x b)))

  pub usage_reconcile-Keeps :
      (token : Text) (w : Log) → Ahead w → Keeps (usage_reconcile env config token) w
  unfolding usage_reconcile
  usage_reconcile-Keeps token w a = with_state-Keeps token _ w a (λ d v s.
      Keeps->>= (using d (reconcile_usage env config)) _ v
        (using-Keeps (reconcile_usage env config) d v
          (Steps-Ahead _ d v (reconcile_usage-Steps env config d v s)))
        (λ c x b.
          Keeps->>= (drain env config) _ x (drain-Keeps env config x b)
            (λ e y g. Runs-pure _ tt y g)))

  pub finish-Keeps :
      (token outcome : Text) (given : Option ℤ) (w : Log)
      → Ahead w
      → Keeps (finish env config token outcome given) w
  unfolding finish
  finish-Keeps token outcome given w a = with_state-Keeps token _ w a (λ d v s.
      refuse-Keeps (ltb_ℤ (exit_code_of given outcome) (pos 0)) _ v s.ahead (
        Keeps->>= (using d (finish_child env config given outcome d)) _ v
          (using-Keeps (finish_child env config given outcome d) d v
            (finish_child-Runs env config given outcome d v s))
          (λ c x b. Keeps->>= (drain env config) _ x (drain-Keeps env config x b) (λ e y g.
            dashboard-Keeps
              (is_drained env config e
                && same outcome (codes "completed")
                && same_relation d.identity.relation root)
              (λ h. record {
                token = token;
                outcome = outcome;
                coverage = c;
                drained = is_drained env config e;
                dashboard = h;
              })
              y g))))

  recorded-Keeps :
      (d : State) (p : Publication) (w : Log) → Synced d w → Keeps (recorded env config d p) w
  unfolding recorded record_event
  recorded-Keeps d p w s =
      Keeps->>= (using d (record_event env config p.kind p.identity p.event)) _ w
        (using-Keeps (record_event env config p.kind p.identity p.event) d w
          (Steps-Ahead _ d w (observe_event-Steps env config _ p.event d w s)))
        (λ a v b. Keeps->>= (drain env config) _ v (drain-Keeps env config v b) (λ c x g.
          guard-Keeps (is_drained env config c) _ x g (
            dashboard-Keeps (same_phase d.phase terminal && same_relation d.identity.relation root)
              (λ h. record { kind = p.kind; dashboard = h }) x g)))

  contracted-Keeps :
      (allowed : Bool) (path schema : Text) (fields : List Text) (f : Fields → Tried Publication)
      (d : State) (w : Log)
      → Synced d w
      → Keeps (contracted env config allowed path schema fields f d) w
  unfolding contracted read_contract
  contracted-Keeps allowed path schema fields f d w s = guard-Keeps allowed _ w s.ahead (record {
    after =
        (lift-Keeps (contract env schema fields (env.contract w path)) _ w s.ahead (λ value.
          lift-Keeps (f value) (recorded env config d) w s.ahead
            (λ p. recorded-Keeps d p w s))).after;
  })

  pub review-Keeps :
      (token : Text) (scope : Scope) (path : Text) (w : Log)
      → Ahead w
      → Keeps (review env config token scope path) w
  unfolding review review_with
  review-Keeps token scope path w a =
      with_state-Keeps token (review_with env config scope path) w a (λ d v s.
        contracted-Keeps (review_allowed d scope) path review_schema review_fields
          (review_publication env d scope) d v s)

  pub activity-Keeps :
      (token path : Text) (w : Log) → Ahead w → Keeps (activity env config token path) w
  unfolding activity activity_with
  activity-Keeps token path w a =
      with_state-Keeps token (activity_with env config path) w a (λ d v s.
        contracted-Keeps (is_open d.phase) path activity_schema activity_fields
          (activity_publication env d) d v s)

  pub attribution-Keeps :
      (token path : Text) (w : Log) → Ahead w → Keeps (attribution env config token path) w
  unfolding attribution attribution_with
  attribution-Keeps token path w a =
      with_state-Keeps token (attribution_with env config path) w a (λ d v s.
        contracted-Keeps (same_phase d.phase terminal) path attribution_schema attribution_fields
          (attribution_publication env d) d v s)

  pub complication-Keeps :
      (token path : Text) (w : Log) → Ahead w → Keeps (complication env config token path) w
  unfolding complication complication_with
  complication-Keeps token path w a =
      with_state-Keeps token (complication_with env config path) w a (λ d v s.
        contracted-Keeps (is_open d.phase) path complication_schema
          (codes "complicationId" ∷ complication_fields) (complication_publication env d) d v s)

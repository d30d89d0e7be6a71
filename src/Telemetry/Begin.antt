-- ===== src/Telemetry/Begin.antt =====
-- roadmap-telemetry.py `begin`: a dispatch is expected. A retry finds the state of its attempt.
use fs_quint.Base.{
  pos_part, Bool, true, false, not, ◌&&◌, ◌||◌, Option, none, some, [], if◌then◌else◌,
}
use mathlib.Core.Option
use fs_quint.Base.Text.{Text, codes, same, empty}
use fs_quint.Usage.{configuration}
use fs_quint.Telemetry.Machine.{
  begin_pending, expected, started, terminal, root, follow_up, State, Log, Act, pure, raise, lift,
  observe, using, ◌>>=◌, ◌>>◌,
}
use fs_quint.Telemetry.Host.{Env, HostConfig}
use fs_quint.Telemetry.Events.{begin_events}
use fs_quint.Telemetry.Files.{read_state}
use fs_quint.Telemetry.Matching.{matching_dispatch, same_relation}
use fs_quint.Telemetry.Original.{authorized_original}
use fs_quint.Telemetry.Publish.{publish, publish_pending, same_phase}
use fs_quint.Telemetry.Descent.{
  BeginArgs, Reply, prospective_coverage, given_original, check_args, Descent, descend, expected_of,
  host_parent, Baseline, baseline,
}

module _ (env : Env) (config : HostConfig) (a : BeginArgs) where
  parentless : Option Text → Descent
  unfolding given_original
  parentless digest = record {
    original = given_original a.original_item a.item;
    digest = digest;
    relation = root;
    parent = none;
  }

  unfoldable pub no_parent : Act Unit Descent
  unfolding given_original authorized_original same same_relation parentless
  no_parent =
      let original = given_original a.original_item a.item in
      if not (same_relation a.relation root)
      then raise configuration
      else if same original a.item
      then pure (parentless none)
      else (do
        digest ← authorized_original env a.feature a.item original
        pure (parentless (some digest)))

  unfoldable pub descent : Option Text → Act Unit Descent
  unfolding no_parent read_state descend
  descent none = no_parent
  descent (some t) =
      if empty t then no_parent else (do d ← read_state env config t; lift (descend a d))

  unfoldable pub reply : State → Reply
  unfolding prospective_coverage
  reply d = record { token = d.token; coverage = prospective_coverage d }

  -- The attempt has a state file: its publication is sent again, if it is still pending.
  unfoldable pub retry : State → Act Unit Reply
  unfolding publish_pending same_phase reply
  retry d =
      if same_phase d.phase begin_pending
      then (using d (publish_pending env config) >> pure (reply d))
      else if same_phase d.phase expected
      then pure (reply d)
      else raise configuration

  -- A follow-up may belong to a terminal parent, every other child to a started one.
  unfoldable pub may_descend : Descent → Bool
  unfolding same_phase same_relation
  may_descend x = elim x.parent [
    | none ↦ true
    | some d ↦
        same_phase d.phase started
        || (same_relation x.relation follow_up && same_phase d.phase terminal)
  ]

  -- The state of a new dispatch, with the identities that `uuid4` gave.
  unfoldable pub fresh : Log → Descent → Option Text → Baseline → State
  fresh w x host b =
      let invocation = env.uuid w 3 in
      record {
        token = env.uuid w 0;
        phase = begin_pending;
        sequence = 0;
        invocation = invocation;
        identity = record {
          feature = a.feature;
          item = a.item;
          original_item = some x.original;
          original_assignment_digest = x.digest;
          attempt = a.attempt;
          parent_attempt = a.parent_attempt;
          producer_stream = a.producer;
          model = a.model;
          effort = a.effort;
          activation = elim x.parent [ none ↦ env.uuid w 1 | some d ↦ d.identity.activation ];
          dispatch = env.uuid w 2;
          root_invocation = elim x.parent [
            | none ↦ invocation
            | some d ↦ d.identity.root_invocation
          ];
          parent_dispatch = Option.map (λ d. d.identity.dispatch) x.parent;
          parent_invocation = Option.map (λ d. d.invocation) x.parent;
          relation = x.relation;
          late_after_seconds = pos_part a.late_after_seconds;
          host_parent_thread = host;
          baseline_turns = b.turns;
          usage_baseline_known = some b.known;
          association_producer = config.producer;
          association_digest = config.binding_digest;
        };
        native_id = none;
        outcome = none;
        exit_code = none;
        usage = record { thread_id = none; thread_published = false; ledger = []; intent = none };
        pending = none;
      }

  unfoldable pub publish_new : State → Text → Text → Act Unit Reply
  unfolding publish begin_events reply
  publish_new d original timestamp =
      using d (
        publish env config (codes "begin") expected
          (begin_events env d.identity original timestamp))
      >> pure (reply d)

  unfoldable pub create : Descent → Act Unit Reply
  unfolding may_descend host_parent baseline fresh publish_new
  create x =
      if may_descend x
      then (do
        b ← baseline env x.relation (host_parent env x.relation) x.parent
        d ← observe (λ w. fresh w x (host_parent env x.relation) b)
        timestamp ← observe env.now
        publish_new d x.original timestamp)
      else raise configuration

  unfoldable pub resume : Descent → Option State → Act Unit Reply
  unfolding retry create
  resume x (some d) = retry d
  resume x none = create x

  unfoldable pub begin : Act Unit Reply
  unfolding check_args descent matching_dispatch expected_of resume
  begin = do
    lift (check_args a)
    x ← descent a.parent_token
    existing ← matching_dispatch env config (expected_of a x)
    resume x existing

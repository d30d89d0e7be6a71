-- ===== src/Telemetry/Ahead/Beginning.antt =====
-- `begin` keeps the discipline, where the new token has no state file yet.
use fs_quint.Base.{
  ◌≡◌, refl, sym, ap, ◌∙◌, subst, arith, true, false, not, ◌&&◌, Bool, Option, none, some, List, [],
  ◌∷◌, All, select, ltb, length, if◌then◌else◌,
}
use fs_quint.Base.Text.{Text, codes, same, empty}
use fs_quint.Usage.{configuration, done, threw}
use fs_quint.Telemetry.Machine.{
  begin_pending, expected, State, Log, Relation, root, child, follow_up, pure, lift, using, stored,
  ◌>>=◌,
}
use fs_quint.Telemetry.Host.{Env, HostConfig}
use fs_quint.Telemetry.Command.{run, text_of}
use fs_quint.Telemetry.Assignment.{revision_of, granted, github_answer}
use fs_quint.Telemetry.Original.{authorized_original, github}
use fs_quint.Telemetry.Events.{begin_events}
use fs_quint.Telemetry.Files.{read_state, is_token, same_option}
use fs_quint.Telemetry.Matching.{
  Expected, matching, bounded, matching_dispatch, the_dispatch, is_attempt, is_expected, tokens,
  same_relation,
}
use fs_quint.Telemetry.Descent.{
  BeginArgs, Descent, descend, check_args, expected_of, host_parent, Baseline, baseline,
  follow_up_baseline, collect_native_usage, baseline_of, given_original,
}
use fs_quint.Telemetry.Begin.{
  begin, no_parent, descent, retry, reply, may_descend, fresh, publish_new, create, resume,
}
use fs_quint.Telemetry.Publish.{publish, publish_pending, same_phase}
use fs_quint.Telemetry.Runs.{Runs, Runs-pure, Runs-raise, Runs-if, Runs->>=, Runs-lift}
use fs_quint.Telemetry.Ahead.{standing, standing_in, Ahead, Synced, fits, climbs}
use fs_quint.Telemetry.Ahead.Operations.{
  Keeps, Keeps->>=, using-Keeps, read_state-IsRead, IsRead, run-Keeps,
}
use fs_quint.Telemetry.Ahead.Commands.{Steps-Ahead, lift-Keeps, with_state-Keeps}
use fs_quint.Telemetry.Ahead.Reconciling.{publish_pending-Steps, collect_native_usage-Runs}
use fs_quint.Telemetry.Ahead.Finishing.{publish-Ahead}
use fs_quint.Telemetry.Ahead.Sending.{Ready}

-- `uuid4` gives a token without a state file.
pub record Unused (env : Env) : Type 0 where
  pub no_file : (w : Log) → stored (env.uuid w 0) w ≡ none

-- The states that were read, at the time when they were.
AllRead : Log → List State → Log → Type 0
AllRead w ds v = (v ≡ w) × All (λ d. Synced d v) ds

module _ (env : Env) (config : HostConfig) where
  github-Keeps : (endpoint : Text) (w : Log) → Ahead w → Keeps (github env endpoint) w
  unfolding github
  github-Keeps endpoint w a =
      Keeps->>= (run env (codes "gh" ∷ codes "api" ∷ endpoint ∷ []))
        (λ p. lift (github_answer env p)) w (run-Keeps env config _ w a)
        (λ p v b. Runs-lift (github_answer env p) tt v (λ f h. b) (λ f. b))

  authorized_original-Keeps :
      (feature item original : Text) (w : Log)
      → Ahead w
      → Keeps (authorized_original env feature item original) w
  unfolding authorized_original
  authorized_original-Keeps feature item original w a =
      Keeps->>= (github env _) _ w (github-Keeps _ w a) (λ ref v b.
        lift-Keeps env config (revision_of ref) _ v b (λ revision.
          Keeps->>= (github env _)
            (λ content. lift (granted env feature item original revision content)) v
            (github-Keeps _ v b)
            (λ content u c.
              Runs-lift (granted env feature item original revision content) tt u (λ x h. c)
                (λ f. c))))

  module _ (a : BeginArgs) where
    no_parent-Keeps : (w : Log) → Ahead w → Keeps (no_parent env config a) w
    unfolding no_parent
    no_parent-Keeps w h =
        Runs-if (not (same_relation a.relation root)) _ _ tt w
          (λ e. Runs-raise configuration tt w h)
          (λ e.
            Runs-if (same (given_original a.original_item a.item) a.item) _ _ tt w
              (λ f. Runs-pure _ tt w h)
              (λ f.
                Keeps->>=
                  (authorized_original env a.feature a.item (given_original a.original_item a.item))
                  _ w (authorized_original-Keeps a.feature a.item _ w h)
                  (λ d v b. Runs-pure _ tt v b)))

    descent-Keeps : (o : Option Text) (w : Log) → Ahead w → Keeps (descent env config a o) w
    unfolding descent
    descent-Keeps none w h = no_parent-Keeps w h
    descent-Keeps (some t) w h =
        Runs-if (empty t) _ _ tt w (λ e. no_parent-Keeps w h)
          (λ e.
            with_state-Keeps env config t (λ d. lift (descend a d)) w h
              (λ d v s. Runs-lift (descend a d) tt v (λ x k. s.ahead) (λ f. s.ahead)))

  matching-AllRead :
      (e : Expected) (ts : List Text) (w : Log)
      → Ahead w
      → Runs (λ ds s. AllRead w ds) (λ f s. Ahead) (matching env config e ts) tt w
  unfolding matching AllRead
  matching-AllRead e [] w h = Runs-pure [] tt w (refl, tt)
  matching-AllRead e (t ∷ ts) w h =
      Runs->>= (λ d s. IsRead w d) (read_state env config t) _ tt w
        (read_state-IsRead env config t w h)
        (λ d s v r.
          Runs->>= (λ ds s. AllRead v ds) (matching env config e ts) _ tt v
            (matching-AllRead e ts v r.synced.ahead)
            (λ ds s u q. Runs-pure _ tt u (
              q.0 ∙ r.unchanged,
              kept d ds u (is_attempt e d) (subst (Synced d) (sym q.0) r.synced) q.1,
            )))
    where
      kept :
          (d : State) (ds : List State) (u : Log) (b : Bool)
          → Synced d u
          → All (λ x. Synced x u) ds
          → All (λ x. Synced x u) (if b then d ∷ ds else ds)
      kept d ds u true s a = (s, a)
      kept d ds u false s a = a

  the_dispatch-Synced :
      (e : Expected) (ds : List State) (w : Log) (d : State)
      → All (λ x. Synced x w) ds
      → the_dispatch e ds ≡ done (some d)
      → Synced d w
  unfolding the_dispatch
  the_dispatch-Synced e [] w d a h = absurd (ground (arith, h))
  the_dispatch-Synced e (x ∷ []) w d a h = subst (λ y. Synced y w) (single (is_expected e x) h) a.0
    where
      single :
          (b : Bool) → (if b then done (some x) else threw configuration) ≡ done (some d) → x ≡ d
      single true k = ground (arith, k)
      single false k = absurd (ground (arith, k))
  the_dispatch-Synced e (x ∷ y ∷ ds) w d a h = absurd (ground (arith, h))

  follow_up_baseline-Keeps :
      (host : Option Text) (d : State) (w : Log) → Ahead w → Keeps (follow_up_baseline env host d) w
  unfolding follow_up_baseline
  follow_up_baseline-Keeps none d w h = Runs-pure _ tt w h
  follow_up_baseline-Keeps (some t) d w h =
      Runs-if (not (empty t) && same_option d.identity.host_parent_thread (some t)) _ _ tt w
        (λ e.
          Keeps->>= (collect_native_usage env t (text_of d.native_id)) (λ n. pure (baseline_of n)) w
            (collect_native_usage-Runs env t (text_of d.native_id) tt w (λ n. h) (λ f. h))
            (λ n v b. Runs-pure (baseline_of n) tt v b))
        (λ e. Runs-pure _ tt w h)

  baseline-Keeps :
      (r : Relation) (host : Option Text) (o : Option State) (w : Log)
      → Ahead w
      → Keeps (baseline env r host o) w
  unfolding baseline
  baseline-Keeps follow_up host (some d) w h = follow_up_baseline-Keeps host d w h
  baseline-Keeps follow_up host none w h = Runs-pure _ tt w h
  baseline-Keeps root host o w h = Runs-pure _ tt w h
  baseline-Keeps child host o w h = Runs-pure _ tt w h

  module _ (a : BeginArgs) where
    retry-Keeps : (d : State) (w : Log) → Synced d w → Keeps (retry env config a d) w
    unfolding retry
    retry-Keeps d w s =
        Runs-if (same_phase d.phase begin_pending) _ _ tt w
          (λ e.
            Keeps->>= (using d (publish_pending env config)) (λ x. pure (reply env config a d)) w
              (using-Keeps (publish_pending env config) d w
                (Steps-Ahead _ d w (publish_pending-Steps env config d w s)))
              (λ x v b. Runs-pure (reply env config a d) tt v b))
          (λ e.
            Runs-if (same_phase d.phase expected) _ _ tt w
              (λ f. Runs-pure (reply env config a d) tt w s.ahead)
              (λ f. Runs-raise configuration tt w s.ahead))

    -- A new state has no file, and is about to be expected.
    fresh-Ready :
        (w : Log) (x : Descent) (host : Option Text) (b : Baseline)
        → Unused env
        → Ahead w
        → Ready (fresh env config a w x host b) w expected
    unfolding fresh fits climbs same_phase
    fresh-Ready w x host b u h = record {
      ahead = h;
      sequence = ap (λ k. k.sequence) blank;
      pending = ap (λ k. k.pending) blank;
      climb = ap (λ k. climbs k.phase begin_pending) blank;
      goal = refl;
      invocation = ap (λ k. k.invocation) blank;
    }
      where
        blank :
            standing (fresh env config a w x host b) w
            ≡ standing_in none (fresh env config a w x host b).invocation
        blank = ap (λ o. standing_in o (env.uuid w 3)) (u.no_file w)

    publish_new-Keeps :
        (d : State) (original timestamp : Text) (w : Log)
        → Ready d w expected
        → Keeps (publish_new env config a d original timestamp) w
    unfolding publish_new
    publish_new-Keeps d original timestamp w r =
        Keeps->>=
          (using d (
            publish env config (codes "begin") expected
              (begin_events env d.identity original timestamp)))
          (λ x. pure (reply env config a d)) w
          (using-Keeps _ d w (
            Steps-Ahead _ d w (
              publish-Ahead env config (codes "begin") expected
                (begin_events env d.identity original timestamp) d w r)))
          (λ x v b. Runs-pure (reply env config a d) tt v b)

    create-Keeps : (x : Descent) (w : Log) → Unused env → Ahead w → Keeps (create env config a x) w
    unfolding create
    create-Keeps x w u h =
        Runs-if (may_descend env config a x) _ _ tt w
          (λ e.
            Keeps->>= (baseline env x.relation (host_parent env x.relation) x.parent) _ w
              (baseline-Keeps x.relation (host_parent env x.relation) x.parent w h)
              (λ b v c. record {
                after =
                    (publish_new-Keeps (fresh env config a v x (host_parent env x.relation) b)
                      x.original (env.now v) v
                      (fresh-Ready v x (host_parent env x.relation) b u c)).after;
              }))
          (λ e. Runs-raise configuration tt w h)

    resume-Keeps :
        (x : Descent) (o : Option State) (w : Log)
        → Unused env
        → Ahead w
        → ((d : State) → o ≡ some d → Synced d w)
        → Keeps (resume env config a x o) w
    unfolding resume
    resume-Keeps x none w u h k = create-Keeps x w u h
    resume-Keeps x (some d) w u h k = retry-Keeps d w (k d refl)

    continue-Keeps :
        (x : Descent) (w : Log)
        → Unused env
        → Ahead w
        → Keeps (matching_dispatch env config (expected_of a x) >>= resume env config a x) w
    unfolding matching_dispatch bounded AllRead
    continue-Keeps x w u h = record {
      after =
          (Runs->>= (λ o s v. Ahead v × ((d : State) → o ≡ some d → Synced d v))
            (bounded env config (expected_of a x) (tokens w)) (resume env config a x) tt w
            (Runs-if (ltb 4096 (length (tokens w))) _ _ tt w (λ e. Runs-raise configuration tt w h)
              (λ e.
                Runs->>= (λ ds s. AllRead w ds)
                  (matching env config (expected_of a x) (select is_token (tokens w)))
                  (λ ds. lift (the_dispatch (expected_of a x) ds)) tt w
                  (matching-AllRead (expected_of a x) (select is_token (tokens w)) w h)
                  (λ ds s v q.
                    Runs-lift (the_dispatch (expected_of a x) ds) tt v
                      (λ o p. (
                        subst Ahead (sym q.0) h,
                        λ d k. the_dispatch-Synced (expected_of a x) ds v d q.1 (p ∙ ap done k),
                      ))
                      (λ f. subst Ahead (sym q.0) h))))
            (λ o s v q. resume-Keeps x o v u q.0 q.1)).after;
    }

    pub begin-Keeps : (w : Log) → Unused env → Ahead w → Keeps (begin env config a) w
    unfolding begin
    begin-Keeps w u h = lift-Keeps env config (check_args a) _ w h (λ ok.
        Keeps->>= (descent env config a a.parent_token) _ w (descent-Keeps a a.parent_token w h)
          (λ x v b. continue-Keeps x v u b))

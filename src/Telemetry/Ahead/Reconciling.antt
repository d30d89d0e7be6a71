-- ===== src/Telemetry/Ahead/Reconciling.antt =====
-- `reconcile_usage` keeps the discipline.
use fs_quint.Base.{
  ◌≡◌, refl, sym, ap, subst, arith, true, not, Option, none, some, List, [], ◌∷◌, ◌||◌,
}
use fs_quint.Base.Text.{Text, codes, same}
use fs_quint.Host.Value.{Json}
use fs_quint.Usage.{Fault, configuration, host_unavailable, os_error, subprocess_error, crash}
use fs_quint.Usage.Collect.{collect}
use fs_quint.Usage.Turns.{Native, TurnUsage}
use fs_quint.Telemetry.Machine.{
  Phase, terminal, Intent, State, Log, Act, pure, raise, modify, ◌>>=◌, ◌>>◌,
}
use fs_quint.Telemetry.Host.{Env, HostConfig}
use fs_quint.Telemetry.Descent.{collect_native_usage, usage_or_none, filled}
use fs_quint.Telemetry.Command.{text_of}
use fs_quint.Telemetry.Files.{save_state}
use fs_quint.Telemetry.Ledger.{
  enter, propose, forget, announce_thread, name_thread, entry_of, fingerprint, is_recorded,
}
use fs_quint.Telemetry.Publish.{publish_pending, same_phase}
use fs_quint.Telemetry.Reconcile.{
  unsupported, unknown, baseline_known, observe_event, publish_known, recover_in, observe_event_in,
  resume_thread_in, resume_pending_in, resume_intent_in, name_once_in, publish_thread_in,
  publish_revision_in, publish_turn_in, gather_in, reconcile_usage_in, note_thread, resume_thread,
  recover, resume_pending, record_intent, resume_intent, name_once, publish_thread,
  publish_revision, publish_turn, publish_turns, publish_native, gather, reconcile_usage,
  changed_thread, unnamed,
}
use fs_quint.Telemetry.Runs.{
  Runs, Runs-weaken, Runs-pure, Runs-raise, Runs-if, Runs->>=, Runs-lift, Runs-inspect, Runs-option,
  Runs-catch, Runs-modify,
}
use fs_quint.Telemetry.Ahead.{core, standing, Ahead, Synced, Safe, fits, climbs}
use fs_quint.Telemetry.Ahead.Saving.{save_state-Safe, Synced-Safe}
use fs_quint.Telemetry.Ahead.Sending.{Ready}
use fs_quint.Telemetry.Ahead.Finishing.{publish_pending-Safe, publish-Ahead}

-- The action ends with the state in its file, or raises with the discipline kept.
abbrev pub Steps : {A : Type 0} → Act State A → State → Log → Type 0
Steps m d w = Runs (λ a. Synced) (λ f e. Ahead) m d w

pub Steps->>= :
    {A B : Type 0} (m : Act State A) (f : A → Act State B) (d : State) (w : Log)
    → Steps m d w
    → ((a : A) (t : State) (v : Log) → Synced t v → Steps (f a) t v)
    → Steps (m >>= f) d w
Steps->>= m f d w h k = Runs->>= (λ a. Synced) m f d w h k

Steps-done : {A : Type 0} (a : A) (d : State) (w : Log) → Synced d w → Steps (pure a) d w
Steps-done a d w s = Runs-pure a d w s

fits_refl : (p : Phase) → fits p p ≡ true
unfolding fits same_phase
fits_refl p = ground arith

climbs_refl : (p : Phase) → climbs p p ≡ true
unfolding climbs same_phase
climbs_refl p = ground arith

Synced-Ready : (d : State) (w : Log) → Synced d w → Ready d w d.phase
Synced-Ready d w s = record {
  ahead = s.ahead;
  sequence = ap (λ k. k.sequence) s.agrees;
  pending = ap (λ k. k.pending) s.agrees;
  climb =
      subst (λ p. climbs p d.phase ≡ true) (sym (ap (λ k. k.phase) s.agrees)) (climbs_refl d.phase);
  goal = fits_refl d.phase;
  invocation = ap (λ k. k.invocation) s.agrees;
}

module _ (env : Env) where
  -- A change beside the publication, saved at once.
  pub save_state-Steps :
      (f : State → State) (d : State) (w : Log)
      → (f d).token ≡ d.token
      → core (f d) ≡ core d
      → Synced d w
      → Steps (modify f >> save_state env) d w
  save_state-Steps f d w t c s = Runs-modify f (save_state env) d w (
      Runs-weaken (save_state env) (f d) w
        (save_state-Safe env (f d) w
          (Synced-Safe (f d) w (record { ahead = s.ahead; agrees = agrees })))
        (λ a e v r. r) (λ g e v r. r.ahead))
    where
      agrees : standing (f d) w ≡ core (f d)
      agrees = ground (arith, t, c, s.agrees)

  pub collect_native_usage-Runs :
      {S : Type 0} {Q : Option Native → S → Log → Type 0} {E : Fault → S → Log → Type 0}
      (parent native : Text) (d : S) (w : Log)
      → ((n : Option Native) → Q n d w)
      → ((f : Fault) → E f d w)
      → Runs Q E (collect_native_usage env parent native) d w
  unfolding collect_native_usage
  collect_native_usage-Runs {S} parent native d w q e = record {
    after =
        (Runs-lift {S = S} (usage_or_none ((collect (env.codex w) parent native) []).result) d w
          (λ a h. q a) e).after;
  }

  pub publish_pending-Steps :
      (config : HostConfig) (d : State) (w : Log)
      → Synced d w
      → Steps (publish_pending env config) d w
  publish_pending-Steps config d w s =
      Runs-weaken (publish_pending env config) d w (publish_pending-Safe env config d w s)
        (λ a e v r. r) (λ g e v r. r.ahead)

module _ (env : Env) (config : HostConfig) where
  pub observe_event-Steps :
      (operation : Text) (e : Json) (d : State) (w : Log)
      → Synced d w
      → Steps (observe_event env config operation e) d w
  unfolding observe_event observe_event_in
  observe_event-Steps operation e d w s =
      Runs-inspect (observe_event_in env config operation e) d w
        (publish-Ahead env config operation d.phase (e ∷ []) d w (Synced-Ready d w s))

  note_thread-Steps : (d : State) (w : Log) → Synced d w → Steps (note_thread env config) d w
  unfolding note_thread announce_thread
  note_thread-Steps d w s = save_state-Steps env announce_thread d w refl refl s

  record_intent-Steps :
      (i : Intent) (d : State) (w : Log) → Synced d w → Steps (record_intent env config i) d w
  unfolding record_intent enter
  record_intent-Steps i d w s = save_state-Steps env (enter i) d w refl refl s

  resume_thread-Steps : (d : State) (w : Log) → Synced d w → Steps (resume_thread env config) d w
  unfolding resume_thread resume_thread_in
  resume_thread-Steps d w s = Runs-inspect (resume_thread_in env config) d w (
      Runs-option d.pending _ _ d w (Steps-done tt d w s) (λ p h.
        Runs-if (same p.operation (codes "native-thread")) _ _ d w
          (λ k.
            Steps->>= (publish_pending env config) _ d w (publish_pending-Steps env config d w s)
              (λ a. note_thread-Steps))
          (λ k. Steps-done tt d w s)))

  -- The handler only raises.
  forget-raises :
      (d : State) (w : Log)
      → Safe d w
      → Steps {A = Unit {0}} (modify forget >> save_state env >> raise configuration) d w
  unfolding forget
  forget-raises d w s =
      Runs->>= (λ a. Synced) (modify forget >> save_state env) (λ a. raise configuration) d w
        (Runs-modify forget (save_state env) d w (
          Runs-weaken (save_state env) (forget d) w
            (save_state-Safe env (forget d) w (record {
              ahead = s.ahead;
              next = record { move = s.next.move; sound = s.next.sound };
            }))
            (λ a e v r. r) (λ g e v r. r.ahead)))
        (λ a t v r. Runs-raise configuration t v r.ahead)

  recover-Steps : (f : Fault) (d : State) (w : Log) → Safe d w → Steps (recover env config f) d w
  unfolding recover recover_in
  recover-Steps configuration d w s = Runs-inspect (recover_in env config) d w (
      Runs-option d.pending _ _ d w (forget-raises d w s)
        (λ p h. Runs-raise configuration d w s.ahead))
  recover-Steps host_unavailable d w s = Runs-raise host_unavailable d w s.ahead
  recover-Steps os_error d w s = Runs-raise os_error d w s.ahead
  recover-Steps subprocess_error d w s = Runs-raise subprocess_error d w s.ahead
  recover-Steps crash d w s = Runs-raise crash d w s.ahead

  resume_pending-Steps : (d : State) (w : Log) → Synced d w → Steps (resume_pending env config) d w
  unfolding resume_pending resume_pending_in
  resume_pending-Steps d w s = Runs-inspect (resume_pending_in env config) d w (
      Runs-option d.pending _ _ d w (Steps-done tt d w s) (λ p h.
        Runs-catch (λ f. Safe) (publish_pending env config) (recover env config) d w
          (publish_pending-Safe env config d w s) recover-Steps))

  resume_intent-Steps : (d : State) (w : Log) → Synced d w → Steps (resume_intent env config) d w
  unfolding resume_intent resume_intent_in
  resume_intent-Steps d w s = Runs-inspect (resume_intent_in env config) d w (
      Runs-option d.usage.intent _ _ d w (Steps-done tt d w s) (λ i h.
        Steps->>= (resume_pending env config) _ d w (resume_pending-Steps d w s)
          (λ a. record_intent-Steps i)))

  name_once-Steps :
      (id : Json) (d : State) (w : Log) → Synced d w → Steps (name_once env config id) d w
  unfolding name_once name_once_in name_thread
  name_once-Steps id d w s = Runs-inspect (name_once_in env config id) d w (
      Runs-if (unnamed d.usage.thread_id) _ _ d w
        (λ h. save_state-Steps env (name_thread id) d w refl refl s) (λ h. Steps-done tt d w s))

  publish_thread-Steps :
      (id : Json) (d : State) (w : Log) → Synced d w → Steps (publish_thread env config id) d w
  unfolding publish_thread publish_thread_in
  publish_thread-Steps id d w s = Runs-inspect (publish_thread_in env config id) d w (
      Runs-if d.usage.thread_published _ _ d w (λ h. Steps-done tt d w s)
        (λ h.
          Steps->>= _ _ d w
            (Steps->>= (name_once env config id) _ d w (name_once-Steps id d w s)
              (λ a. observe_event-Steps _ _))
            (λ a. note_thread-Steps)))

  publish_revision-Steps :
      (native : Native) (turn : TurnUsage) (i : Intent) (d : State) (w : Log)
      → Synced d w
      → Steps (publish_revision env config native turn i) d w
  unfolding publish_revision publish_revision_in propose
  publish_revision-Steps native turn i d w s =
      Runs-inspect (publish_revision_in env config native turn i) d w (
        Steps->>= _ _ d w
          (Steps->>= (modify (propose i) >> save_state env) _ d w
            (save_state-Steps env (propose i) d w refl refl s) (λ a. observe_event-Steps _ _))
          (λ a. record_intent-Steps i))

  publish_turn-Steps :
      (native : Native) (turn : TurnUsage) (d : State) (w : Log)
      → Synced d w
      → Steps (publish_turn env config native turn) d w
  unfolding publish_turn publish_turn_in
  publish_turn-Steps native turn d w s = Runs-inspect (publish_turn_in env config native turn) d w (
      Runs-if (is_recorded (entry_of turn.turn_id d.usage.ledger) (fingerprint env turn)) _ _ d w
        (λ h. Steps-done tt d w s) (λ h. publish_revision-Steps native turn _ d w s))

  publish_turns-Steps :
      (native : Native) (ts : List TurnUsage) (d : State) (w : Log)
      → Synced d w
      → Steps (publish_turns env config native ts) d w
  unfolding publish_turns
  publish_turns-Steps native [] d w s = Steps-done tt d w s
  publish_turns-Steps native (t ∷ ts) d w s =
      Steps->>= (publish_turn env config native t) _ d w (publish_turn-Steps native t d w s)
        (λ a. publish_turns-Steps native ts)

  publish_native-Steps :
      (n : Option Native) (d : State) (w : Log)
      → Synced d w
      → Steps (publish_native env config n) d w
  unfolding publish_native publish_known
  publish_native-Steps none d w s = Steps-done unknown d w s
  publish_native-Steps (some native) d w s = Runs-inspect (publish_known env config native) d w (
      Runs-if (changed_thread d.usage.thread_id native.thread_id) _ _ d w
        (λ h. Runs-raise configuration d w s.ahead)
        (λ h.
          Steps->>= _ _ d w
            (Steps->>= (publish_thread env config native.thread_id) _ d w
              (publish_thread-Steps native.thread_id d w s) (λ a. publish_turns-Steps native _))
            (λ a. Steps-done _)))

  gather-Steps : (d : State) (w : Log) → Synced d w → Steps (gather env config) d w
  unfolding gather gather_in
  gather-Steps d w s = Runs-inspect (gather_in env config) d w (
      Runs->>= (λ a. Synced) _ (publish_native env config) d w
        (collect_native_usage-Runs env (text_of d.identity.host_parent_thread) (text_of d.native_id)
          d w (λ a. s) (λ f. s.ahead))
        publish_native-Steps)

  pub reconcile_usage-Steps :
      (d : State) (w : Log) → Synced d w → Steps (reconcile_usage env config) d w
  unfolding reconcile_usage reconcile_usage_in
  reconcile_usage-Steps d w s = Runs-inspect (reconcile_usage_in env config) d w (
      Runs-if (not (same_phase d.phase terminal) || not (filled d.identity.host_parent_thread)) _ _
        d w (λ h. Steps-done unsupported d w s)
        (λ h.
          Runs-if (not (baseline_known d)) _ _ d w (λ k. Steps-done unknown d w s)
            (λ k.
              Steps->>= _ _ d w
                (Steps->>= (resume_thread env config) _ d w (resume_thread-Steps d w s)
                  (λ a. resume_intent-Steps))
                (λ a. gather-Steps))))

-- ===== src/Telemetry/Ahead/Finishing.antt =====
-- Submitting the pending batch and taking the engine's answer keep the discipline.
use fs_quint.Base.{
  ◌≡◌, refl, sym, ap, ◌∙◌, subst, arith, ◌-◌, ◌≤◌, true, false, Option, none, some, List, ◌∷◌, pos,
  eqb_ℤ, if◌then◌else◌, ◌&&◌, not,
}
use fs_quint.Base.Text.{Text, same, codes, contains}
use fs_quint.Base.Text.Decimal.{show_nat}
use fs_quint.Host.{Proc}
use fs_quint.Host.Value.{Json}
use fs_quint.Usage.{Fault, Tried, configuration, done, threw}
use fs_quint.Telemetry.Machine.{
  Phase, Pending, State, submitted, Log, Act, raise, lift, stored, Completed, completed, ◌>>=◌,
}
use fs_quint.Telemetry.Host.{Env, HostConfig}
use fs_quint.Telemetry.Publish.{
  publish_pending, publish, prepare_publication, pending_of, submit, answer, settle, withdraw,
  message, attempt, is_applied, hand_over, submit_command, removed, unlinking, unlink, batch_path,
}
use fs_quint.Telemetry.Command.{validate_workspace, workspace_mutation_command}
use fs_quint.Telemetry.Files.{save_state}
use fs_quint.Telemetry.Runs.{After, Runs, Runs-weaken, Runs-raise, Runs-if, Runs->>=, Runs-lift}
use fs_quint.Telemetry.Ahead.{Core, SoundPending, Move, Sent, standing_in, Ahead, Synced, Safe}
use fs_quint.Telemetry.Ahead.Saving.{save_state-Safe, Synced-Safe}
use fs_quint.Telemetry.Ahead.Quiet.{Held, mutation-Runs, write-Held, validate_workspace-Held}
use fs_quint.Telemetry.Ahead.Sending.{Ready, prepare_publication-Synced}

-- The pending batch went out last, and the engine came to this end.
pub record Delivered (d : State) (p : Pending) (c : Completed) (e : State) (w : Log) : Type 0 where
  pub unchanged : e ≡ d
  pub synced : Synced d w
  pub sent : Sent w d.token p.batch c

settle-Safe :
    (d : State) (p : Pending) (c : Completed) (w : Log)
    → d.pending ≡ some p
    → Synced d w
    → Sent w d.token p.batch c
    → eqb_ℤ c.status (pos 0) ≡ true
    → Safe (settle p d) w
unfolding settle SoundPending
settle-Safe d p c w e s t h = record {
  ahead = s.ahead;
  next = record {
    move =
        Move.settle p (ap (λ k. k.pending) s.agrees ∙ e) (record { end = c; sent = t; success = h })
          (ap {A = Core} (λ k. record k { phase = p.next_phase; pending = none }) (sym s.agrees));
    sound = tt;
  };
}

withdraw-Safe :
    (d : State) (p : Pending) (c : Completed) (w : Log)
    → d.pending ≡ some p
    → 1 ≤ d.sequence
    → Synced d w
    → Sent w d.token p.batch c
    → eqb_ℤ c.status (pos 0) ≡ false
    → contains (codes "invalid-request") (message c) ≡ true
    → Safe (withdraw p d) w
unfolding withdraw SoundPending
withdraw-Safe d p c w e q s t h i = record {
  ahead = s.ahead;
  next = record {
    move =
        Move.withdraw p (d.sequence - 1) (ap (λ k. k.pending) s.agrees ∙ e)
          (record { end = c; sent = t; failure = h; invalid = i })
          (ap (λ k. k.sequence) s.agrees ∙ omega (arith, q))
          (ap {A = Core} (λ k. record k { sequence = d.sequence - 1; pending = none })
            (sym s.agrees));
    sound = tt;
  };
}

Synced-counted :
    (d : State) (p : Pending) (w : Log) → d.pending ≡ some p → Synced d w → 1 ≤ d.sequence
unfolding SoundPending
Synced-counted d p w e s =
    (subst (SoundPending d.invocation d.sequence d.phase) e (Synced-Safe d w s).next.sound).counted

module _ (env : Env) (config : HostConfig) where
  answer-Safe :
      (d : State) (p : Pending) (c : Completed) (w : Log)
      → d.pending ≡ some p
      → Synced d w
      → Sent w d.token p.batch c
      → Runs (λ a. Synced) (λ f. Safe) (answer env config p c) d w
  unfolding answer
  answer-Safe d p c w e s t =
      Runs-if (eqb_ℤ c.status (pos 0)) _ _ d w
        (λ h.
          Runs-if
            (same p.operation (codes "population-only")
              && not (is_applied env config p.batch c.stdout))
            _ _ d w (λ k. Runs-raise configuration d w (Synced-Safe d w s))
            (λ k. record {
              after = (save_state-Safe env (settle p d) w (settle-Safe d p c w e s t h)).after;
            }))
        (λ h.
          Runs-if (contains (codes "invalid-request") (message c)) _ _ d w
            (λ i. record {
              after =
                  (Runs->>= (λ a. Synced) (save_state env) (λ a. raise configuration) (withdraw p d)
                    w
                    (save_state-Safe env (withdraw p d) w
                      (withdraw-Safe d p c w e (Synced-counted d p w e s) s t h i))
                    (λ a u v r. Runs-raise configuration u v (Synced-Safe u v r))).after;
            })
            (λ i. Runs-raise configuration d w (Synced-Safe d w s)))

-- Only a file makes a publication pending.
pending-stored :
    (o : Option State) (i : Text) (p : Pending)
    → (standing_in o i).pending ≡ some p
    → (file : State) × (o ≡ some file) × (file.pending ≡ some p)
pending-stored none i p h = absurd (ground arith)
pending-stored (some file) i p h = (file, refl, h)

Synced-submitted :
    (d : State) (p : Pending) (proc : Proc) (w : Log)
    → d.pending ≡ some p
    → Synced d w
    → Synced d (submitted d.token p.batch proc ∷ w)
unfolding stored
Synced-submitted d p proc w e s =
    let (file, is, pend) =
      pending-stored (stored d.token w) d.invocation p (ap (λ k. k.pending) s.agrees ∙ e) in
    record {
      ahead = (
        record { file = file; intent = p; is_stored = is; is_pending = pend; same_batch = refl },
        s.ahead,
      );
      agrees = s.agrees;
    }

module _ (env : Env) (config : HostConfig) (d : State) (p : Pending) (e : d.pending ≡ some p) where
  hand_over-Delivered :
      (argv : List Text) (w : Log)
      → Synced d w
      → Runs
          (λ c. Delivered d p c)
          (λ f. Safe)
          (hand_over env config d p.batch argv >>= λ proc. lift (completed proc))
          d
          w
  unfolding hand_over
  hand_over-Delivered argv w s =
      let proc = env.proc w argv in
      let after = Synced-submitted d p proc w e s in
      record {
        after =
            (Runs-lift (completed proc) d (submitted d.token p.batch proc ∷ w)
              (λ c h. record { unchanged = refl; synced = after; sent = (refl, refl, h) })
              (λ f. Synced-Safe d (submitted d.token p.batch proc ∷ w) after)).after;
      }

  attempt-Delivered :
      (path : Text) (w : Log)
      → Synced d w
      → Runs (λ c. Delivered d p c) (λ f. Safe) (attempt env config d p path) d w
  unfolding attempt
  attempt-Delivered path w s =
      Runs->>= (λ argv. Held d)
        (workspace_mutation_command env config (submit_command env config d path)) _ d w
        (mutation-Runs env d w (λ argv. record { unchanged = refl; synced = s })
          (λ f. Synced-Safe d w s) config (submit_command env config d path))
        (λ argv t v h.
          subst
            (λ u.
              Runs (λ c. Delivered d p c) (λ f. Safe)
                (hand_over env config d p.batch argv >>= λ proc. lift (completed proc)) u v)
            (sym h.unchanged) (hand_over-Delivered argv v h.synced))

  removed-Delivered :
      (r : Tried Completed) (o : Option Fault) (t : State) (w : Log)
      → After (λ c. Delivered d p c) (λ f. Safe) r t w
      → Runs (λ c. Delivered d p c) (λ f. Safe) (removed env config r o) t w
  unfolding removed
  removed-Delivered (done c) none t w h = record { after = h }
  removed-Delivered (threw f) none t w h = record { after = h }
  removed-Delivered (done c) (some g) t w h = record {
    after = subst (λ u. Safe u w) (sym h.unchanged) (Synced-Safe d w h.synced);
  }
  removed-Delivered (threw f) (some g) t w h = record { after = h }

  unlinking-Delivered :
      (m : Act State Completed) (w : Log)
      → Runs (λ c. Delivered d p c) (λ f. Safe) m d w
      → Runs (λ c. Delivered d p c) (λ f. Safe) (unlinking env config m) d w
  unfolding unlinking unlink
  unlinking-Delivered m w h = record {
    after =
        (removed-Delivered (m d w).result (env.unlink (m d w).log) (m d w).state (m d w).log
          h.after).after;
  }

  -- When the submission returns, the batch in the file went out last.
  pub submit-Delivered :
      (w : Log) → Synced d w → Runs (λ c. Delivered d p c) (λ f. Safe) (submit env config d p) d w
  unfolding submit
  submit-Delivered w s =
      Runs->>= (λ a. Held d) _ _ d w (write-Held env _ _ _ d w s)
        (λ a t v h.
          subst
            (λ u.
              Runs (λ c. Delivered d p c) (λ f. Safe)
                (unlinking env config (attempt env config d p (batch_path env config d))) u v)
            (sym h.unchanged)
            (unlinking-Delivered (attempt env config d p (batch_path env config d)) v
              (attempt-Delivered (batch_path env config d) v h.synced)))

module _ (env : Env) (config : HostConfig) where
  pending_of-≡ : (d : State) (p : Pending) → pending_of env config d ≡ done p → d.pending ≡ some p
  unfolding pending_of
  pending_of-≡ d p h =
      elim d.pending
          as (λ o.
            elim o [
              | none ↦ threw configuration
              | some q ↦
                  if same q.batch.generation d.invocation
                    && same q.batch.cursor (show_nat d.sequence)
                  then done q
                  else threw configuration
            ]
              ≡ done p
            → o ≡ some p) [ none ↦ λ e. ground (arith, e) | some q ↦ λ e. ground (arith, e) ]
        h

  -- What `publish_pending` does behind the check of the workspace.
  publish_checked :
      (d : State) (w : Log)
      → Synced d w
      → Runs
          (λ a. Synced)
          (λ f. Safe)
          (lift (pending_of env config d) >>= λ p.
            submit env config d p >>= λ c. answer env config p c)
          d
          w
  publish_checked d w s =
      Runs->>= (λ p e v. (d.pending ≡ some p) × Held d e v) (lift (pending_of env config d)) _ d w
        (Runs-lift (pending_of env config d) d w
          (λ p h. (pending_of-≡ d p h, record { unchanged = refl; synced = s }))
          (λ f. Synced-Safe d w s))
        (λ p t v h.
          Runs->>= (λ c. Delivered d p c) (submit env config d p) _ t v
            (subst (λ u. Runs (λ c. Delivered d p c) (λ f. Safe) (submit env config d p) u v)
              (sym h.1.unchanged) (submit-Delivered env config d p h.0 v h.1.synced))
            (λ c t v k.
              subst (λ u. Runs (λ a. Synced) (λ f. Safe) (answer env config p c) u v)
                (sym k.unchanged) (answer-Safe env config d p c v h.0 k.synced k.sent)))

  pub publish_pending-Safe :
      (d : State) (w : Log)
      → Synced d w
      → Runs (λ a. Synced) (λ f. Safe) (publish_pending env config) d w
  unfolding publish_pending
  publish_pending-Safe d w s =
      Runs->>= (λ a. Held d) (validate_workspace env config) _ d w
        (validate_workspace-Held env config d w s)
        (λ a t v h. record {
          after =
              (subst
                (λ u.
                  Runs (λ a. Synced) (λ f. Safe)
                    (lift (pending_of env config u) >>= λ p.
                      submit env config u p >>= λ c. answer env config p c)
                    u v)
                (sym h.unchanged) (publish_checked d v h.synced)).after;
        })

  pub publish-Ahead :
      (operation : Text) (next : Phase) (events : List Json) (d : State) (w : Log)
      → Ready d w next
      → Runs (λ a. Synced) (λ f e. Ahead) (publish env config operation next events) d w
  unfolding publish
  publish-Ahead operation next events d w r =
      Runs->>= (λ a. Synced) (prepare_publication env config operation next events) _ d w
        (prepare_publication-Synced env config operation next events d w r)
        (λ a t v s.
          Runs-weaken (publish_pending env config) t v (publish_pending-Safe t v s) (λ a t v s. s)
            (λ f t v s. s.ahead))

-- ===== src/Telemetry/Ahead/Sending.antt =====
-- Preparing a publication keeps the discipline.
use fs_quint.Base.{
  &&-left, &&-right, ◌≡◌, refl, sym, ◌∙◌, subst, arith, true, Option, none, some, List,
  if◌then◌else◌, ◌&&◌,
}
use fs_quint.Base.Text.{Text, same}
use fs_quint.Host.Value.{Json}
use fs_quint.Host.Value.Equality.{same_list}
use fs_quint.Usage.{configuration}
use fs_quint.Telemetry.Machine.{Phase, Pending, State, Log, pure, raise, modify, ◌>>◌}
use fs_quint.Telemetry.Host.{Env, HostConfig}
use fs_quint.Telemetry.Publish.{prepare_publication, is_same, same_phase, intend, advance, batch_of}
use fs_quint.Telemetry.Files.{save_state}
use fs_quint.Telemetry.Runs.{Runs, Runs-weaken, Runs-pure, Runs-raise, Runs-if}
use fs_quint.Telemetry.Ahead.{
  Core, core, SoundPending, announce, standing, Ahead, Synced, Safe, fits, climbs,
}
use fs_quint.Telemetry.Ahead.Saving.{stored-Sound, save_state-Safe}

-- The state in memory is the one in the file, but that its phase may have climbed.
pub record Ready (d : State) (w : Log) (next : Phase) : Type 0 where
  pub ahead : Ahead w
  pub sequence : (standing d w).sequence ≡ d.sequence
  pub pending : (standing d w).pending ≡ d.pending
  pub climb : climbs (standing d w).phase d.phase ≡ true
  pub goal : fits d.phase next ≡ true
  pub invocation : (standing d w).invocation ≡ d.invocation

pub same_phase_refl : (p : Phase) → same_phase p p ≡ true
unfolding same_phase
same_phase_refl p = ground arith

pub same_phase-≡ : (p q : Phase) → same_phase p q ≡ true → p ≡ q
unfolding same_phase
same_phase-≡ p q h = ground arith

-- A goal that fits the phase in the file as well tells that the phase did not climb.
level : (c d n : Phase) → climbs c d ≡ true → fits d n ≡ true → fits c n ≡ true → c ≡ d
unfolding climbs fits same_phase
level c d n h g f = ground arith

same_core :
    (c : Core) (d : State)
    → c.phase ≡ d.phase
    → c.sequence ≡ d.sequence
    → c.invocation ≡ d.invocation
    → c.pending ≡ d.pending
    → c ≡ core d
same_core c d a b e f = cc

-- The pending publication is the one asked for.
Ready-again :
    (d : State) (w : Log) (p : Pending) (operation : Text) (next : Phase) (events : List Json)
    → Ready d w next
    → d.pending ≡ some p
    → is_same p operation next events ≡ true
    → Synced d w
unfolding is_same SoundPending
Ready-again d w p operation next events r e h =
    let same_goal = same_phase-≡ p.next_phase next (
      &&-right (same p.operation operation) (same_phase p.next_phase next) (
        &&-left (same p.operation operation && same_phase p.next_phase next)
          (same_list p.batch.events events) h)) in
    let sound =
      subst (SoundPending (standing d w).invocation (standing d w).sequence (standing d w).phase)
        (r.pending ∙ e) (stored-Sound d.token d.invocation w r.ahead) in
    record {
      ahead = r.ahead;
      agrees =
          same_core (standing d w) d
            (level (standing d w).phase d.phase next r.climb r.goal
              (subst (λ n. fits (standing d w).phase n ≡ true) same_goal sound.goal))
            r.sequence r.invocation r.pending;
    }

-- A new publication may be saved.
Ready-new :
    (d : State) (w : Log) (operation : Text) (next : Phase) (events : List Json)
    → Ready d w next
    → d.pending ≡ none
    → Safe (intend operation next events (advance d)) w
unfolding intend advance batch_of SoundPending
Ready-new d w operation next events r e = record {
  ahead = r.ahead;
  next = record {
    move = announce _ (r.pending ∙ e) refl (ground (arith, r.sequence)) (sym r.invocation) r.climb;
    sound = record { generation = refl; cursor = refl; counted = omega arith; goal = r.goal };
  };
}

prepare-cases :
    (env : Env) (config : HostConfig) (operation : Text) (next : Phase) (events : List Json)
    (d : State) (w : Log) (o : Option Pending)
    → d.pending ≡ o
    → Ready d w next
    → Runs
        (λ a. Synced)
        (λ f e. Ahead)
        (elim o [
          | some p ↦ if is_same p operation next events then pure tt else raise configuration
          | none ↦ modify (λ e. intend operation next events (advance e)) >> save_state env
        ])
        d
        w
prepare-cases env config operation next events d w none e r = record {
  after =
      (Runs-weaken (save_state env) (intend operation next events (advance d)) w
        (save_state-Safe env _ w (Ready-new d w operation next events r e)) (λ a t v s. s)
        (λ f t v s. s.ahead)).after;
}
prepare-cases env config operation next events d w (some p) e r =
    Runs-if (is_same p operation next events) (pure tt) (raise configuration) d w
      (λ h. Runs-pure tt d w (Ready-again d w p operation next events r e h))
      (λ h. Runs-raise configuration d w r.ahead)

pub prepare_publication-Synced :
    (env : Env) (config : HostConfig) (operation : Text) (next : Phase) (events : List Json)
    (d : State) (w : Log)
    → Ready d w next
    → Runs (λ a. Synced) (λ f e. Ahead) (prepare_publication env config operation next events) d w
unfolding prepare_publication
prepare_publication-Synced env config operation next events d w r = record {
  after = (prepare-cases env config operation next events d w d.pending refl r).after;
}

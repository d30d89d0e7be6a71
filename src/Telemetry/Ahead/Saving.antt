-- ===== src/Telemetry/Ahead/Saving.antt =====
-- Saving a state keeps the discipline.
use fs_quint.Base.{◌≡◌, refl, ap, subst, true, Bool-cases, inl, inr}
use fs_quint.Base.{some, [], ◌∷◌}
use fs_quint.Base.Text.{Text, codes, same, same_iff}
use fs_quint.Usage.{Fault, configuration}
use fs_quint.Telemetry.Machine.{
  State, saved, submitted, called, wrote, Log, Act, stored, observe, ◌>>=◌,
}
use fs_quint.Telemetry.Host.{
  Env, Directory, unmade, shared, private, Write, written, unwritten, written_then,
}
use fs_quint.Telemetry.Files.{write_private_json, save_state, place, in_private}
use fs_quint.Telemetry.Runs.{Runs}
use fs_quint.Telemetry.Ahead.{Sound, SoundPending, stay, standing_in, Ahead, Synced, Safe}

pub same_refl : (t : Text) → same t t ≡ true
same_refl t = (same_iff t t).1 refl

-- What is in a file was allowed.
pub stored-Sound : (t : Text) (i : Text) (w : Log) → Ahead w → Sound (standing_in (stored t w) i)
unfolding stored SoundPending
stored-Sound t i [] a = tt
stored-Sound t i (saved d ∷ w) a = elim (Bool-cases (same d.token t)) [
  | inl e ↦ rw e (a.0.sound)
  | inr e ↦ rw e (stored-Sound t i w a.1)
]
stored-Sound t i (submitted u b p ∷ w) a = stored-Sound t i w a.1
stored-Sound t i (called argv ∷ w) a = stored-Sound t i w a.1
stored-Sound t i (wrote f n j ∷ w) a = stored-Sound t i w a.1

pub stored-saved : (d : State) (w : Log) → stored d.token (saved d ∷ w) ≡ some d
unfolding stored
stored-saved d w = rw (same_refl d.token) refl

pub Synced-Safe : (d : State) (w : Log) → Synced d w → Safe d w
Synced-Safe d w s = record {
  ahead = s.ahead;
  next = record {
    move = stay s.agrees;
    sound = subst Sound s.agrees (stored-Sound d.token d.invocation w s.ahead);
  };
}

pub Safe-saved : (d : State) (w : Log) → Safe d w → Synced d (saved d ∷ w)
Safe-saved d w s = record {
  ahead = (s.next, s.ahead);
  agrees = ap (λ o. standing_in o d.invocation) (stored-saved d w);
}

place-Safe :
    (r : Write) (d : State) (w : Log)
    → Safe d w
    → Runs (λ a. Synced) (λ f. Safe) (place r (saved d)) d w
unfolding place
place-Safe written d w s = record { after = Safe-saved d w s }
place-Safe (unwritten f) d w s = record { after = s }
place-Safe (written_then f) d w s = record {
  after = Synced-Safe d (saved d ∷ w) (Safe-saved d w s);
}

-- A file that may not be written leaves everything as it was.
pub in_private-Runs :
    {S : Type 0} {Q : Unit → S → Log → Type 0} {E : Fault → S → Log → Type 0} (p : Directory)
    (m : Act S Unit) (d : S) (w : Log)
    → ((f : Fault) → E f d w)
    → Runs Q E m d w
    → Runs Q E (in_private p m) d w
unfolding in_private
in_private-Runs (unmade f) m d w e r = record { after = e f }
in_private-Runs shared m d w e r = record { after = e configuration }
in_private-Runs private m d w e r = r

-- A state that may be saved is in its file when `save_state` returns, and may still be saved when
-- it raises.
pub save_state-Safe :
    (env : Env) (d : State) (w : Log)
    → Safe d w
    → Runs (λ a. Synced) (λ f. Safe) (save_state env) d w
unfolding save_state write_private_json
save_state-Safe env d w s = record {
  after =
      (in_private-Runs (env.directory w (codes "orchestrator-dispatches"))
        (observe (λ v. env.write v (codes "orchestrator-dispatches") d.token) >>= λ r.
          place r (saved d))
        d w (λ f. s)
        (record {
          after = (place-Safe (env.write w (codes "orchestrator-dispatches") d.token) d w s).after;
        })).after;
}

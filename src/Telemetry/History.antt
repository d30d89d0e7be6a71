-- ===== src/Telemetry/History.antt =====
-- The logs that the script can leave: runs of commands one after the other, each of which may be
-- killed at any event.
pub mod Replay
pub mod Order
pub mod InOrder
pub mod Delivery
use fs_quint.Base.{
  ◌≡◌, refl, List, [], ◌∷◌, ◌++◌, ◌⊎◌, inl, inr, true, false, Bool, Bool-cases, Option, some, arith,
}
use fs_quint.Base.Text.{Text, same, same_iff}
use fs_quint.Base.{pos, eqb_ℤ}
use fs_quint.Base.Text.{codes, contains}
use fs_quint.Host.{Proc}
use fs_quint.Usage.{done}
use fs_quint.Telemetry.Machine.{
  State, Batch, Event, saved, submitted, called, wrote, Log, stored, Completed, completed,
}
use fs_quint.Telemetry.Host.{Env, HostConfig}
use fs_quint.Telemetry.Main.{Command, main}
use fs_quint.Telemetry.Publish.{message}
use fs_quint.Telemetry.Ahead.{Ahead, Allowed, Submits, Saves}
use fs_quint.Telemetry.Ahead.Beginning.{Unused}
use fs_quint.Telemetry.Ahead.Whole.{main-Ahead}

-- Another process may see another host.
pub data Reached : Log → Type 0 where
  start : Reached []
  command :
      (env : Env) (config : HostConfig) (c : Command) (w : Log)
      → Unused env
      → Reached w
      → Reached (main env config c w).1
  killed : (v w : Log) → Reached (v ++ w) → Reached w

pub suffix-Ahead : (v w : Log) → Ahead (v ++ w) → Ahead w
suffix-Ahead [] w a = a
suffix-Ahead (e ∷ v) w a = suffix-Ahead v w a.1

pub Reached-Ahead : (w : Log) → Reached w → Ahead w
Reached-Ahead _ start = tt
Reached-Ahead _ (command env config c w u r) = main-Ahead env config c w u (Reached-Ahead w r)
Reached-Ahead w (killed v _ r) = suffix-Ahead v w (Reached-Ahead (v ++ w) r)

-- How the engine ended with a batch for good.
pub record IsRefusal (proc : Proc) : Type 0 where
  pub end : Completed
  pub ended : completed proc ≡ done end
  pub failure : eqb_ℤ end.status (pos 0) ≡ false
  pub invalid : contains (codes "invalid-request") (message end) ≡ true

pub record IsSuccess (proc : Proc) : Type 0 where
  pub end : Completed
  pub ended : completed proc ≡ done end
  pub success : eqb_ℤ end.status (pos 0) ≡ true

-- A submission of the batch for the token, with an end of that kind, is in the log.
pub Answered : (Proc → Type 0) → Text → Batch → Log → Type 0
Answered P t b [] = ⊥
Answered P t b (submitted u c proc ∷ w) = ((u ≡ t) × (c ≡ b) × P proc) ⊎ Answered P t b w
Answered P t b (e ∷ w) = Answered P t b w

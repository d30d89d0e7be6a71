-- ===== src/Telemetry/Ahead.antt =====
-- The write-ahead discipline of the publications: which saves may follow which, and that what is
-- sent to the engine is the batch in the state file.
pub mod Saving
pub mod Sending
pub mod Quiet
pub mod Finishing
pub mod Reconciling
pub mod Lifecycles
pub mod Operations
pub mod Commands
pub mod Beginning
pub mod Assigning
pub mod Whole
use fs_quint.Base.{
  ℕ, suc, pos, ◌≤◌, ◌≡◌, refl, Bool, true, false, Option, none, some, List, [], ◌∷◌, eqb_ℤ,
}
use fs_quint.Base.Text.{Text, codes, contains}
use fs_quint.Base.Text.Decimal.{show_nat}
use fs_quint.Usage.{done}
use fs_quint.Telemetry.Machine.{
  Phase, begin_pending, expected, start_pending, started, terminal_pending, terminal, Batch,
  Pending, State, Event, saved, submitted, called, wrote, Log, stored, Completed, completed,
}
use fs_quint.Telemetry.Publish.{same_phase, message}

-- What the publications are about.
pub record Core : Type 0 where
  pub phase : Phase
  pub sequence : ℕ
  pub invocation : Text
  pub pending : Option Pending

abbrev pub core : State → Core
core d = record {
  phase = d.phase;
  sequence = d.sequence;
  invocation = d.invocation;
  pending = d.pending;
}

-- The phases that a publication may connect: a pending one with its goal, and each with itself.
unfoldable pub fits : Phase → Phase → Bool
unfolding same_phase
fits begin_pending expected = true
fits start_pending started = true
fits terminal_pending terminal = true
fits p q = same_phase p q

-- The phases in the file and behind the save of an intent.
unfoldable pub climbs : Phase → Phase → Bool
unfolding same_phase
climbs expected start_pending = true
climbs started terminal_pending = true
climbs p q = same_phase p q

abbrev pub rank : Phase → ℕ
rank begin_pending = 0
rank expected = 1
rank start_pending = 2
rank started = 3
rank terminal_pending = 4
rank terminal = 5

pub record Sends (invocation : Text) (sequence : ℕ) (phase : Phase) (p : Pending) : Type 0 where
  pub generation : p.batch.generation ≡ invocation
  pub cursor : p.batch.cursor ≡ show_nat sequence
  pub counted : 1 ≤ sequence
  pub goal : fits phase p.next_phase ≡ true

-- A pending batch carries the invocation and the sequence of its state.
unfoldable pub SoundPending : Text → ℕ → Phase → Option Pending → Type 0
SoundPending i n phase none = Unit
SoundPending i n phase (some p) = Sends i n phase p

abbrev pub Sound : Core → Type 0
Sound c = SoundPending c.invocation c.sequence c.phase c.pending

-- The newest event is a submission of the batch, with this end.
abbrev pub Sent : Log → Text → Batch → Completed → Type 0
Sent (submitted u b proc ∷ w) t batch c = (u ≡ t) × (b ≡ batch) × (completed proc ≡ done c)
Sent _ t batch c = ⊥

pub record Accepted (w : Log) (t : Text) (b : Batch) : Type 0 where
  pub end : Completed
  pub sent : Sent w t b end
  pub success : eqb_ℤ end.status (pos 0) ≡ true

pub record Rejected (w : Log) (t : Text) (b : Batch) : Type 0 where
  pub end : Completed
  pub sent : Sent w t b end
  pub failure : eqb_ℤ end.status (pos 0) ≡ false
  pub invalid : contains (codes "invalid-request") (message end) ≡ true

-- A save may keep the publication, announce one where none is pending, finish the pending one when
-- the engine has just taken its batch, or withdraw it when the engine has just rejected the batch.
pub data Move (w : Log) (t : Text) (c d : Core) : Type 0 where
  stay : c ≡ d → Move w t c d
  announce :
      (p : Pending)
      → c.pending ≡ none
      → d.pending ≡ some p
      → d.sequence ≡ suc c.sequence
      → d.invocation ≡ c.invocation
      → climbs c.phase d.phase ≡ true
      → Move w t c d
  settle :
      (p : Pending)
      → c.pending ≡ some p
      → Accepted w t p.batch
      → d ≡ record c { phase = p.next_phase; pending = none }
      → Move w t c d
  withdraw :
      (p : Pending) (n : ℕ)
      → c.pending ≡ some p
      → Rejected w t p.batch
      → c.sequence ≡ suc n
      → d ≡ record c { sequence = n; pending = none }
      → Move w t c d

-- The publication in the file of a token; a dispatch without a file has none yet.
abbrev pub standing_in : Option State → Text → Core
standing_in (some d) i = core d
standing_in none i = record { phase = begin_pending; sequence = 0; invocation = i; pending = none }

abbrev pub standing : State → Log → Core
standing d w = standing_in (stored d.token w) d.invocation

pub record Saves (d : State) (w : Log) : Type 0 where
  pub move : Move w d.token (standing d w) (core d)
  pub sound : Sound (core d)

pub record Submits (t : Text) (b : Batch) (w : Log) : Type 0 where
  pub file : State
  pub intent : Pending
  pub is_stored : stored t w ≡ some file
  pub is_pending : file.pending ≡ some intent
  pub same_batch : intent.batch ≡ b

abbrev pub Allowed : Event → Log → Type 0
Allowed (saved d) w = Saves d w
Allowed (submitted t b proc) w = Submits t b w
Allowed (called argv) w = Unit
Allowed (wrote directory name content) w = Unit

-- Every event of the log was allowed when it happened.
abbrev pub Ahead : Log → Type 0
Ahead [] = Unit
Ahead (e ∷ w) = Allowed e w × Ahead w

-- The state in memory is the one in the file, or one that may be saved next.
pub record Synced (d : State) (w : Log) : Type 0 where
  pub ahead : Ahead w
  pub agrees : standing d w ≡ core d

pub record Safe (d : State) (w : Log) : Type 0 where
  pub ahead : Ahead w
  pub next : Saves d w

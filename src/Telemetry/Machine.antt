-- ===== src/Telemetry/Machine.antt =====
-- What the telemetry scripts keep and do: the state file of a dispatch, the log of what they did,
-- and actions that change the state in memory. An action keeps its changes when it raises, as a
-- Python dictionary does.
use fs_quint.Base.{ℕ, ℤ, Bool, Option, none, some, List, [], ◌∷◌, if◌then◌else◌}
use fs_quint.Base.Text.{Text, same}
use fs_quint.Host.{Proc, not_started, timed_out, exited}
use fs_quint.Host.Value.{Json}
use fs_quint.Usage.{Fault, os_error, subprocess_error, Tried, done, threw}

-- The phases that the script writes.
pub data Phase : Type 0 where
  begin_pending expected start_pending started terminal_pending terminal : Phase

pub data Relation : Type 0 where
  root child follow_up : Relation

-- A batch. Its `schema` is the script's constant and its `eventCount` the number of events.
pub record Batch : Type 0 where
  pub ingest_id : Text
  pub source_identity : Text
  pub generation : Text
  pub cursor : Text
  pub events : List Json

pub record Pending : Type 0 where
  pub operation : Text
  pub next_phase : Phase
  pub batch : Batch

-- An entry of `usageLedger`, and `usageIntent`.
pub record Entry : Type 0 where
  pub revision : ℕ
  pub hash : Text

pub record Intent : Type 0 where
  pub turn_id : Text
  pub entry : Entry

-- What `begin` fixes for a dispatch. An older file may lack `originalItemId` or
-- `usageBaselineKnown`.
pub record Identity : Type 0 where
  pub feature : Text
  pub item : Text
  pub original_item : Option Text
  pub original_assignment_digest : Option Text
  pub attempt : Text
  pub parent_attempt : Option Text
  pub producer_stream : Text
  pub model : Text
  pub effort : Text
  pub activation : Text
  pub dispatch : Text
  pub root_invocation : Text
  pub parent_dispatch : Option Text
  pub parent_invocation : Option Text
  pub relation : Relation
  pub late_after_seconds : ℕ
  pub host_parent_thread : Option Text
  pub baseline_turns : List Text
  pub usage_baseline_known : Option Bool
  pub association_producer : Option Text
  pub association_digest : Option Text

pub record Row : Type 0 where
  pub turn : Text
  pub entry : Entry

-- What the script keeps of the native usage of a dispatch.
pub record Usage : Type 0 where
  pub thread_id : Option Json
  pub thread_published : Bool
  pub ledger : List Row
  pub intent : Option Intent

-- The state file. A file without `outcome` or `exitCode` is written so.
pub record State : Type 0 where
  pub token : Text
  pub phase : Phase
  pub sequence : ℕ
  pub invocation : Text
  pub identity : Identity
  pub native_id : Option Text
  pub outcome : Option Text
  pub exit_code : Option ℤ
  pub usage : Usage
  pub pending : Option Pending

-- What is done to the outside: a state file replaced, another private file written in a directory
-- with its content,
-- a batch handed to the engine for a token, with what came of it, and any other command.
pub data Event : Type 0 where
  saved : State → Event
  submitted : Text → Batch → Proc → Event
  called : List Text → Event
  wrote : Text → Text → Json → Event

-- The newest event first.
abbrev pub Log : Type 0
Log = List Event

abbrev pub Act : Type 0 → Type 0 → Type 0
Act S A = S → Log → record { result : Tried A; state : S; log : Log }

module _ {S A : Type 0} where
  abbrev pub pure : A → Act S A
  pure a s w = record { result = done a; state = s; log = w }

  abbrev pub raise : Fault → Act S A
  raise e s w = record { result = threw e; state = s; log = w }

  abbrev pub lift : Tried A → Act S A
  lift r s w = record { result = r; state = s; log = w }

  -- The rest may depend on the state in memory.
  abbrev pub inspect : (S → Act S A) → Act S A
  inspect f s w = f s s w

  -- An answer of the host at this time.
  abbrev pub observe : (Log → A) → Act S A
  observe f s w = record { result = done (f w); state = s; log = w }

abbrev pub modify : {S : Type 0} → (S → S) → Act S Unit
modify f s w = record { result = done tt; state = f s; log = w }

abbrev pub emit : {S : Type 0} → Event → Act S Unit
emit e s w = record { result = done tt; state = s; log = e ∷ w }

abbrev pub proceed : {S A B : Type 0} → Tried A → (A → Act S B) → Act S B
proceed (done a) f s w = f a s w
proceed (threw e) f s w = record { result = threw e; state = s; log = w }

infixl 10 ◌>>=◌ ◌>>◌
abbrev pub ◌>>=◌ : {S A B : Type 0} → Act S A → (A → Act S B) → Act S B
◌>>=◌ m f s w = proceed (m s w).result f (m s w).state (m s w).log

abbrev pub ◌>>◌ : {S A B : Type 0} → Act S A → Act S B → Act S B
m >> n = m >>= λ _. n

-- `except`: the handler sees the exception, in the state and at the time where it was raised.
abbrev pub handle : {S A : Type 0} → Tried A → (Fault → Act S A) → Act S A
handle (done a) h s w = record { result = done a; state = s; log = w }
handle (threw e) h s w = h e s w

abbrev pub catch : {S A : Type 0} → Act S A → (Fault → Act S A) → Act S A
catch m h s w = handle (m s w).result h (m s w).state (m s w).log

-- An action on a state that a command holds.
abbrev pub using : {S A : Type 0} → S → Act S A → Act Unit A
using d m s w = record { result = (m d w).result; state = tt; log = (m d w).log }

-- The state file of a token: the one saved last.
unfoldable pub stored : Text → Log → Option State
unfolding same
stored t [] = none
stored t (saved d ∷ w) = let older = stored t w in if same d.token t then some d else older
stored t (e ∷ w) = stored t w

-- `subprocess.run`: an exception, or the end of the process.
pub record Completed : Type 0 where
  pub status : ℤ
  pub stdout : Text
  pub stderr : Text

unfoldable pub completed : Proc → Tried Completed
completed not_started = threw os_error
completed timed_out = threw subprocess_error
completed (exited status out err) = done (record { status = status; stdout = out; stderr = err })

-- ===== src/Tests/Telemetries.antt =====
-- A dispatch that is begun under an engine that fails once.
use fs_quint.Telemetry.Publish.{batch_json}
use fs_quint.Telemetry.CiAssignment.{Assigned, safe_name}
use fs_quint.Telemetry.CiAssignment.SafeName.{Confined, create_ci-Confined}
use fs_quint.Telemetry.CiAssignment.Create.{create_ci}
use fs_quint.Telemetry.History.InOrder.{InOrder, submissions-InOrder}
use fs_quint.Base.{
  ◌≡◌, refl, ◌⊎◌, arith, ℕ, zero, suc, ◌≤◌, pos, false, true, Bool-cases, inl, inr, none, some, [],
  ◌∷◌, ◌++◌, length, length-append,
}
use fs_quint.Base.{ap, subst}
use fs_quint.Base.Text.{Text, codes, same, same_iff}
use fs_quint.Host.{Proc, exited}
use fs_quint.Usage.{configuration, threw}
use fs_quint.Usage.Server.{Codex, broken}
use fs_quint.Telemetry.Machine.{
  Log, Event, saved, submitted, called, wrote, State, Pending, stored, root, expected,
  start_pending,
}
use fs_quint.Telemetry.Host.{Env, HostConfig, absent, private, written, readable}
use fs_quint.Telemetry.Descent.{BeginArgs, Descent}
use fs_quint.Telemetry.Main.{main, begin_dispatch}
use fs_quint.Telemetry.Ahead.{Ahead, rank}
use fs_quint.Telemetry.Ahead.Beginning.{Unused}
use fs_quint.Telemetry.Ahead.Whole.{main-Ahead}
use fs_quint.Telemetry.History.{Reached, start, command, killed, Answered, IsRefusal}
use fs_quint.Telemetry.History.Replay.{replay-same}
use fs_quint.Telemetry.History.Order.{phase-climbs}
use fs_quint.Telemetry.History.Delivery.{pending-stays, IsAnswer}
use fs_quint.Telemetry.Lifecycle.{start_child, finish_child}
use fs_quint.Telemetry.Stuck.{stuck-fails}
use fs_quint.Telemetry.Publish.{settle, advance, batch_of, batch_name}
use fs_quint.Telemetry.Events.{begin_events}
use fs_quint.Telemetry.Begin.{fresh}

abbrev first_token : Text
first_token = codes "aaaaaaaaaaaaaaaaaaaaaaaaaaaaaaaa"

-- A text longer than every token of the log.
long : Log → Text
long [] = []
long (saved d ∷ w) = b'0' ∷ (d.token ++ long w)
long (e ∷ w) = long w

-- The first token is made of hexadecimal digits, every other one is new by its length.
pub token_at : Log → Text
unfolding long
token_at [] = first_token
token_at (e ∷ w) = b'0' ∷ long (e ∷ w)

too_long : (t : Text) (w : Log) → suc (length (long w)) ≤ length t → stored t w ≡ none
unfolding long stored
too_long t [] h = refl
too_long t (saved d ∷ w) h = elim (Bool-cases (same d.token t)) [
  | inl y ↦ absurd (
      omega
        (arith, h, length-append d.token (long w), ap (λ x. length x) ((same_iff d.token t).0 y)))
  | inr n ↦ rw n (too_long t w (omega (arith, h, length-append d.token (long w))))
]
too_long t (submitted u b p ∷ w) h = too_long t w h
too_long t (called a ∷ w) h = too_long t w h
too_long t (wrote f n j ∷ w) h = too_long t w h

no_file_at : (w : Log) → stored (token_at w) w ≡ none
unfolding token_at stored
no_file_at [] = refl
no_file_at (e ∷ w) = too_long (b'0' ∷ long (e ∷ w)) (e ∷ w) (omega arith)

abbrev uuid_at : Log → ℕ → Text
uuid_at w zero = token_at w
uuid_at w (suc n) = codes "ab"

abbrev silent_codex : Codex
silent_codex = record {
  starts = false;
  exchange = λ w. broken;
  loads = λ t. none;
  loads_bytes = λ t. none;
  rollout = λ t. record { symlink = false; regular = false; inside = false; size = 0; lines = [] };
  show = λ v. [];
}

-- A host whose engine ends so.
abbrev pub host_with : Proc → Env
host_with p = record {
  proc = λ w argv. p;
  environ = λ t. none;
  helper = λ w. absent;
  directory = λ w d. private;
  write = λ w d n. written;
  unlink = λ w. none;
  access = λ w t. readable;
  now = λ w. codes "2026-01-01T00:00:00Z";
  uuid = uuid_at;
  loads = λ t. none;
  sha256 = λ t. codes "0";
  loads_bytes = λ t. none;
  b64decode = λ t. none;
  sha256_bytes = λ t. codes "0";
  codex = λ w. silent_codex;
  executable = codes "python3";
  dashboard = codes "dashboard";
  contract = λ w p. record { symlink = false; regular = false; size = 0; text = none };
}

abbrev failing : Env
failing = host_with (exited (pos 1) [] (codes "timeout"))

abbrev working : Env
working = host_with (exited (pos 0) [] [])

new_token : (p : Proc) → Unused (host_with p)
new_token p = record { no_file = no_file_at }

abbrev config : HostConfig
config = record {
  path = codes "/c";
  store_root = codes "/s";
  engine = codes "e";
  repository = none;
  workspace = false;
  producer = none;
  binding_digest = none;
  credential_reference = none;
}

abbrev args : BeginArgs
args = record {
  feature = codes "f";
  item = codes "i";
  original_item = none;
  attempt = codes "a";
  parent_attempt = none;
  parent_token = none;
  relation = root;
  producer = codes "p";
  model = codes "m";
  effort = codes "e";
  late_after_seconds = pos 60;
}

main-Ahead_example : Ahead (main working config (begin_dispatch args) []).1
main-Ahead_example =
    main-Ahead working config (begin_dispatch args) [] (new_token (exited (pos 0) [] [])) tt

abbrev descent : Descent
descent = record { original = codes "i"; digest = none; relation = root; parent = none }

abbrev new_state : State
new_state =
    advance (fresh failing config args [] descent none (record { turns = []; known = true }))

abbrev the_pending : Pending
the_pending = record {
  operation = codes "begin";
  next_phase = expected;
  batch =
      batch_of new_state
        (begin_events failing new_state.identity (codes "i") (codes "2026-01-01T00:00:00Z"));
}

abbrev begun : State
begun = record new_state { pending = some the_pending }

abbrev writing : Event
writing =
    wrote (codes "orchestrator-publish") (batch_name failing config begun)
      (batch_json the_pending.batch)

-- The first run announces the dispatch and fails to deliver it.
abbrev first_log : Log
first_log =
    submitted first_token the_pending.batch (exited (pos 1) [] (codes "timeout"))
    ∷ writing
    ∷ saved begun
    ∷ []

-- The second one delivers it.
abbrev second_log : Log
second_log =
    saved (settle the_pending begun)
    ∷ submitted first_token the_pending.batch (exited (pos 0) [] [])
    ∷ writing
    ∷ first_log

first_run : (main failing config (begin_dispatch args) []).1 ≡ first_log
unfolding main token_at
first_run = refl

second_run : (main working config (begin_dispatch args) first_log).1 ≡ second_log
unfolding main token_at
second_run = refl

first_Reached : Reached first_log
first_Reached = subst Reached first_run (
    command failing config (begin_dispatch args) []
      (new_token (exited (pos 1) [] (codes "timeout"))) start)

second_Reached : Reached second_log
second_Reached = subst Reached second_run (
    command working config (begin_dispatch args) first_log (new_token (exited (pos 0) [] []))
      first_Reached)

replay-same_example :
    (the_pending.batch ≡ the_pending.batch)
    ⊎ Answered IsRefusal first_token the_pending.batch (
        (writing ∷ [])
        ++ (submitted first_token the_pending.batch (exited (pos 1) [] (codes "timeout")) ∷ []))
replay-same_example =
    replay-same first_token the_pending.batch the_pending.batch
      (exited (pos 1) [] (codes "timeout")) (exited (pos 0) [] []) (writing ∷ [])
      (writing ∷ saved begun ∷ [])
      (killed (saved (settle the_pending begun) ∷ [])
        (submitted first_token the_pending.batch (exited (pos 0) [] []) ∷ writing ∷ first_log)
        second_Reached)
      refl

begun-stored : stored first_token first_log ≡ some begun
unfolding stored advance fresh token_at
begun-stored = refl

pending-stays_example :
    (begun.pending ≡ some the_pending)
    ⊎ Answered IsAnswer first_token the_pending.batch (
        submitted first_token the_pending.batch (exited (pos 1) [] (codes "timeout"))
        ∷ writing
        ∷ [])
unfolding advance fresh token_at
pending-stays_example =
    pending-stays begun begun the_pending
      (submitted first_token the_pending.batch (exited (pos 1) [] (codes "timeout")) ∷ writing ∷ [])
      [] first_Reached refl begun-stored

phase-climbs_example : rank begun.phase ≤ rank (settle the_pending begun).phase
unfolding advance settle
phase-climbs_example =
    phase-climbs begun (settle the_pending begun)
      (submitted first_token the_pending.batch (exited (pos 0) [] [])
        ∷ writing
        ∷ submitted first_token the_pending.batch (exited (pos 1) [] (codes "timeout"))
        ∷ writing
        ∷ [])
      [] second_Reached refl

abbrev withdrawn : State
withdrawn = record new_state { phase = start_pending; native_id = some (codes "n") }

stuck-fails_example :
    ((start_child working config (codes "n") withdrawn withdrawn []).result ≡ threw configuration)
    × ((finish_child working config none (codes "failed") withdrawn withdrawn []).result
        ≡ threw configuration)
unfolding advance fresh
stuck-fails_example =
    stuck-fails working config withdrawn (codes "n") (codes "failed") none [] refl refl

submissions-InOrder_example :
    InOrder the_pending.batch the_pending.batch
    ⊎ Answered IsRefusal first_token the_pending.batch (
        (writing ∷ [])
        ++ (submitted first_token the_pending.batch (exited (pos 1) [] (codes "timeout")) ∷ []))
submissions-InOrder_example =
    submissions-InOrder first_token the_pending.batch the_pending.batch
      (exited (pos 1) [] (codes "timeout")) (exited (pos 0) [] []) (writing ∷ [])
      (writing ∷ saved begun ∷ [])
      (killed (saved (settle the_pending begun) ∷ [])
        (submitted first_token the_pending.batch (exited (pos 0) [] []) ∷ writing ∷ first_log)
        second_Reached)

abbrev climbing : Assigned
climbing = record {
  feature = codes "f";
  item = codes "../up";
  attempt = codes "1";
  parent_attempt = none;
  producer = codes "p";
}

climbing_name : safe_name climbing ≡ codes "p-.._up-1"
unfolding safe_name
climbing_name = refl

create_ci-Confined_example : Confined [] (create_ci working config climbing tt []).log
create_ci-Confined_example = create_ci-Confined working config climbing []

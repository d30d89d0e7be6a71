-- ===== src/Telemetry/Reconcile.antt =====
-- roadmap-telemetry.py `reconcile_usage`: verified native turns are published, each revision once.
use fs_quint.Base.{
  Bool, true, false, not, ◌&&◌, ◌||◌, Option, none, some, List, [], ◌∷◌, ◌++◌, select,
  if◌then◌else◌,
}
use fs_quint.Base.Text.{Text, codes, same, member}
use fs_quint.Base.Text.Decimal.{show_nat}
use fs_quint.Host.Value.{Json, truthy}
use fs_quint.Host.Value.Equality.{same_json}
use fs_quint.Usage.{Fault, configuration}
use fs_quint.Usage.Turns.{Native, TurnUsage}
use fs_quint.Telemetry.Machine.{
  terminal, follow_up, Intent, State, Act, pure, raise, inspect, modify, catch, ◌>>=◌, ◌>>◌,
}
use fs_quint.Telemetry.Host.{Env, HostConfig}
use fs_quint.Telemetry.Command.{text_of}
use fs_quint.Telemetry.Events.{runtime_start}
use fs_quint.Telemetry.Files.{save_state}
use fs_quint.Telemetry.Matching.{same_relation}
use fs_quint.Telemetry.Descent.{filled, collect_native_usage}
use fs_quint.Telemetry.Publish.{publish, publish_pending, same_phase}
use fs_quint.Telemetry.Ledger.{
  entry_of, enter, propose, forget, announce_thread, name_thread, fingerprint, next_revision,
  observation, is_recorded,
}

pub data Coverage : Type 0 where
  unsupported unknown complete : Coverage

-- `state.get("usageBaselineKnown", state.get("relation") != "follow-up")`
unfoldable pub baseline_known : State → Bool
unfolding same_relation
baseline_known d = elim d.identity.usage_baseline_known [
  | some b ↦ b
  | none ↦ not (same_relation d.identity.relation follow_up)
]

unfoldable pub eligible : State → List TurnUsage → List TurnUsage
unfolding member
eligible d turns = select (λ t. not (member t.turn_id d.identity.baseline_turns)) turns

unfoldable pub changed_thread : Option Json → Json → Bool
unfolding truthy same_json
changed_thread none id = false
changed_thread (some v) id = truthy v && not (same_json v id)

unfoldable pub unnamed : Option Json → Bool
unfolding truthy
unnamed none = true
unnamed (some v) = not (truthy v)

module _ (env : Env) (config : HostConfig) where
  -- A publication that keeps the phase.
  unfoldable pub observe_event_in : Text → Json → State → Act State Unit
  unfolding publish
  observe_event_in operation e d = publish env config operation d.phase (e ∷ [])

  unfoldable pub observe_event : Text → Json → Act State Unit
  unfolding observe_event_in
  observe_event operation e = inspect (observe_event_in operation e)

  unfoldable pub note_thread : Act State Unit
  unfolding announce_thread save_state
  note_thread = modify announce_thread >> save_state env

  -- A pending announcement of the thread goes first.
  unfoldable pub resume_thread_in : State → Act State Unit
  unfolding publish_pending note_thread same
  resume_thread_in d = elim d.pending [
    | none ↦ pure tt
    | some p ↦
        if same p.operation (codes "native-thread")
        then (publish_pending env config >> note_thread)
        else pure tt
  ]

  unfoldable pub resume_thread : Act State Unit
  unfolding resume_thread_in
  resume_thread = inspect resume_thread_in

  -- A refused publication is gone, and takes the intent with it.
  unfoldable pub recover_in : State → Act State Unit
  unfolding forget save_state
  recover_in d = elim d.pending [
    | none ↦ modify forget >> save_state env >> raise configuration
    | some p ↦ raise configuration
  ]

  unfoldable pub recover : Fault → Act State Unit
  unfolding recover_in
  recover configuration = inspect recover_in
  recover f = raise f

  unfoldable pub resume_pending_in : State → Act State Unit
  unfolding publish_pending recover
  resume_pending_in d = elim d.pending [
    | none ↦ pure tt
    | some p ↦ catch (publish_pending env config) recover
  ]

  unfoldable pub resume_pending : Act State Unit
  unfolding resume_pending_in
  resume_pending = inspect resume_pending_in

  unfoldable pub record_intent : Intent → Act State Unit
  unfolding enter save_state
  record_intent i = modify (enter i) >> save_state env

  unfoldable pub resume_intent_in : State → Act State Unit
  unfolding resume_pending record_intent
  resume_intent_in d = elim d.usage.intent [
    | none ↦ pure tt
    | some i ↦ resume_pending >> record_intent i
  ]

  unfoldable pub resume_intent : Act State Unit
  unfolding resume_intent_in
  resume_intent = inspect resume_intent_in

  unfoldable pub name_once_in : Json → State → Act State Unit
  unfolding unnamed name_thread save_state
  name_once_in id d =
      if unnamed d.usage.thread_id then (modify (name_thread id) >> save_state env) else pure tt

  unfoldable pub name_once : Json → Act State Unit
  unfolding name_once_in
  name_once id = inspect (name_once_in id)

  unfoldable pub publish_thread_in : Json → State → Act State Unit
  unfolding name_once observe_event runtime_start note_thread
  publish_thread_in id d =
      if d.usage.thread_published
      then pure tt
      else (name_once id
          >> observe_event (codes "native-thread")
              (runtime_start d (codes "runtime-thread-") id (codes "thread"))
          >> note_thread)

  unfoldable pub publish_thread : Json → Act State Unit
  unfolding publish_thread_in
  publish_thread id = inspect (publish_thread_in id)

  unfoldable pub publish_revision_in : Native → TurnUsage → Intent → State → Act State Unit
  unfolding propose save_state observe_event observation record_intent show_nat
  publish_revision_in native turn i d =
      modify (propose i)
      >> save_state env
      >> observe_event
          (codes "native-usage:" ++ (i.turn_id ++ (codes ":" ++ show_nat i.entry.revision)))
          (observation env d native turn i.entry.revision)
      >> record_intent i

  unfoldable pub publish_revision : Native → TurnUsage → Intent → Act State Unit
  unfolding publish_revision_in
  publish_revision native turn i = inspect (publish_revision_in native turn i)

  unfoldable pub publish_turn_in : Native → TurnUsage → State → Act State Unit
  unfolding entry_of fingerprint is_recorded next_revision publish_revision
  publish_turn_in native turn d =
      let hash = fingerprint env turn in
      let previous = entry_of turn.turn_id d.usage.ledger in
      if is_recorded previous hash
      then pure tt
      else publish_revision native turn (record {
        turn_id = turn.turn_id;
        entry = record { revision = next_revision previous; hash = hash };
      })

  unfoldable pub publish_turn : Native → TurnUsage → Act State Unit
  unfolding publish_turn_in
  publish_turn native turn = inspect (publish_turn_in native turn)

  unfoldable pub publish_turns : Native → List TurnUsage → Act State Unit
  unfolding publish_turn
  publish_turns native [] = pure tt
  publish_turns native (t ∷ ts) = publish_turn native t >> publish_turns native ts

  unfoldable pub verdict : Native → List TurnUsage → Coverage
  verdict native [] = unknown
  verdict native (t ∷ ts) = if native.complete then complete else unknown

  unfoldable pub publish_known : Native → State → Act State Coverage
  unfolding changed_thread publish_thread publish_turns eligible verdict
  publish_known native d =
      if changed_thread d.usage.thread_id native.thread_id
      then raise configuration
      else (publish_thread native.thread_id
          >> publish_turns native (eligible d native.turns)
          >> pure (verdict native (eligible d native.turns)))

  -- What the host told of the child.
  unfoldable pub publish_native : Option Native → Act State Coverage
  unfolding publish_known
  publish_native none = pure unknown
  publish_native (some native) = inspect (publish_known native)

  unfoldable pub gather_in : State → Act State Coverage
  unfolding collect_native_usage text_of publish_native
  gather_in d =
      collect_native_usage env (text_of d.identity.host_parent_thread) (text_of d.native_id)
      >>= publish_native

  unfoldable pub gather : Act State Coverage
  unfolding gather_in
  gather = inspect gather_in

  unfoldable pub reconcile_usage_in : State → Act State Coverage
  unfolding filled same_phase baseline_known resume_thread resume_intent gather
  reconcile_usage_in d =
      if not (same_phase d.phase terminal) || not (filled d.identity.host_parent_thread)
      then pure unsupported
      else if not (baseline_known d)
      then pure unknown
      else (resume_thread >> resume_intent >> gather)

  unfoldable pub reconcile_usage : Act State Coverage
  unfolding reconcile_usage_in
  reconcile_usage = inspect reconcile_usage_in

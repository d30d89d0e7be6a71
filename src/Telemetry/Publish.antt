-- ===== src/Telemetry/Publish.antt =====
-- roadmap-telemetry.py `prepare_publication`, `publish_pending` and `publish`: the intent is saved
-- before a batch is sent, and dropped when the engine took the batch or refused it for good.
use fs_quint.Base.{
  ℕ, zero, suc, ◌+◌, ◌-◌, pos, Bool, true, false, not, ◌&&◌, Option, none, some, List, [], ◌∷◌,
  ◌++◌, map, length, eqb_ℤ, if◌then◌else◌,
}
use fs_quint.Base.Text.{Text, codes, same, contains, starts_with, strip, empty}
use fs_quint.Base.Text.Decimal.{show_nat}
use fs_quint.Host.{Proc}
use fs_quint.Host.Value.{
  Json, int, obj, str, arr, Items, nil, cons, field, end, get_or_null, is_text,
}
use fs_quint.Host.Value.Equality.{same_list}
use fs_quint.Usage.{Fault, Tried, configuration, done, threw}
use fs_quint.Telemetry.Machine.{
  Phase, begin_pending, expected, start_pending, started, terminal_pending, terminal, Batch,
  Pending, State, submitted, wrote, Act, pure, raise, lift, inspect, observe, modify, emit,
  Completed, completed, ◌>>=◌, ◌>>◌,
}
use fs_quint.Telemetry.Host.{HostConfig, Env}
use fs_quint.Telemetry.Command.{text_of, validate_workspace, workspace_mutation_command}
use fs_quint.Telemetry.Files.{write_private_json, save_state}

unfoldable pub same_phase : Phase → Phase → Bool
same_phase begin_pending begin_pending = true
same_phase expected expected = true
same_phase start_pending start_pending = true
same_phase started started = true
same_phase terminal_pending terminal_pending = true
same_phase terminal terminal = true
same_phase _ _ = false

zeros : ℕ → Text
zeros zero = []
zeros (suc n) = b'0' ∷ zeros n

-- `f"{n:06d}"`
padded : ℕ → Text
unfolding zeros
padded n = zeros (6 - length (show_nat n)) ++ show_nat n

unfoldable pub batch_of : State → List Json → Batch
unfolding padded show_nat
batch_of d events = record {
  ingest_id = d.invocation ++ (codes "-" ++ padded d.sequence);
  source_identity = d.identity.producer_stream;
  generation = d.invocation;
  cursor = show_nat d.sequence;
  events = events;
}

event_items : List Json → Items
event_items [] = nil
event_items (v ∷ vs) = cons v (event_items vs)

-- The batch as it is written for the engine.
unfoldable pub batch_json : Batch → Json
unfolding event_items
batch_json b = obj (
    field (codes "schema") (str (codes "fsgg.telemetry.ingest/1")) (
      field (codes "ingestId") (str b.ingest_id) (
        field (codes "sourceIdentity") (str b.source_identity) (
          field (codes "generation") (str b.generation) (
            field (codes "cursor") (str b.cursor) (
              field (codes "eventCount") (int (pos (length b.events)))
                (field (codes "events") (arr (event_items b.events)) end)))))))

unfoldable pub advance : State → State
advance d = record d { sequence = d.sequence + 1 }

unfoldable pub intend : Text → Phase → List Json → State → State
unfolding batch_of
intend operation next events d = record d {
  pending = some (record { operation = operation; next_phase = next; batch = batch_of d events });
}

-- `pending` is the same publication.
unfoldable pub is_same : Pending → Text → Phase → List Json → Bool
unfolding same_phase same same_list
is_same p operation next events =
    same p.operation operation && same_phase p.next_phase next && same_list p.batch.events events

-- A state with a pending publication has a sequence above zero.
-- `native-usage:` publications take their intent with them when they are refused.
unfoldable pub withdraw : Pending → State → State
unfolding starts_with
withdraw p d = record d {
  sequence = d.sequence - 1;
  pending = none;
  usage =
      if starts_with p.operation (codes "native-usage:")
      then record d.usage { intent = none }
      else d.usage;
}

unfoldable pub settle : Pending → State → State
settle p d = record d { phase = p.next_phase; pending = none }

-- The message of a failed submission.
unfoldable pub message : Completed → Text
unfolding strip
message c =
    let text = strip c.stderr in
    if empty text then codes "telemetry batch publication failed" else text

-- What an original binding makes of the answer: the receipt's status, or the plain answer.
receipt_status : Env → Batch → Text → Option Text
receipt_status env batch response =
    if starts_with response (codes "{")
    then elim (env.loads response) [
      | some (obj fs) ↦
          if is_text (codes "fsgg.telemetry.receipt/1") (get_or_null (codes "schema") fs)
            && is_text batch.ingest_id (get_or_null (codes "batchId") fs)
          then elim (get_or_null (codes "status") fs) [ str s ↦ some s | _ ↦ none ]
          else none
      | _ ↦ none
    ]
    else some response

unfoldable pub is_applied : Env → HostConfig → Batch → Text → Bool
unfolding receipt_status same strip
is_applied env config batch stdout =
    config.workspace && elim (receipt_status env batch (strip stdout)) [
      | none ↦ false
      | some status ↦ same status (codes "applied")
    ]

module _ (env : Env) (config : HostConfig) where
  unfoldable pub prepare_publication : Text → Phase → List Json → Act State Unit
  unfolding is_same advance intend save_state
  prepare_publication operation next events = inspect λ d. elim d.pending [
    | some p ↦ if is_same p operation next events then pure tt else raise configuration
    | none ↦ modify (λ d. intend operation next events (advance d)) >> save_state env
  ]

  -- The tests at the head of `publish_pending`.
  unfoldable pub pending_of : State → Tried Pending
  unfolding same show_nat
  pending_of d = elim d.pending [
    | none ↦ threw configuration
    | some p ↦
        if same p.batch.generation d.invocation && same p.batch.cursor (show_nat d.sequence)
        then done p
        else threw configuration
  ]

  unfoldable pub submit_command : State → Text → List Text
  unfolding text_of
  submit_command d path =
      if config.workspace
      then config.engine ∷ map codes ("telemetry" ∷ "workspace" ∷ "submit" ∷ "--config" ∷ [])
        ++ (config.path
            ∷ codes "--repository"
            ∷ text_of config.repository
            ∷ codes "--producer"
            ∷ text_of d.identity.association_producer
            ∷ codes "--binding-digest"
            ∷ text_of d.identity.association_digest
            ∷ codes "--input"
            ∷ path
            ∷ [])
      else config.engine ∷ map codes ("telemetry" ∷ "store" ∷ "publish" ∷ "--store-root" ∷ [])
        ++ (config.store_root ∷ codes "--input" ∷ path ∷ [])

  unfoldable pub removed : {A : Type 0} → Tried A → Option Fault → Act State A
  removed r none = lift r
  removed r (some e) = raise e

  -- `batch_path.unlink`, in the `finally` block: its own exception comes first.
  unfoldable pub unlink : {A : Type 0} → Tried A → Act State A
  unfolding removed
  unlink r = observe env.unlink >>= removed r

  unfoldable pub unlinking : {A : Type 0} → Act State A → Act State A
  unfolding unlink
  unlinking m d w = unlink (m d w).result (m d w).state (m d w).log

  unfoldable pub hand_over : State → Batch → List Text → Act State Proc
  hand_over d batch argv = do
    p ← observe (λ w. env.proc w argv)
    emit (submitted d.token batch p)
    pure p

  unfoldable pub attempt : State → Pending → Text → Act State Completed
  unfolding submit_command workspace_mutation_command hand_over completed
  attempt d p path = do
    argv ← workspace_mutation_command env config (submit_command d path)
    proc ← hand_over d p.batch argv
    lift (completed proc)

  unfoldable pub batch_name : State → Text
  unfolding show_nat
  batch_name d = codes "batch-" ++ (d.invocation ++ (codes "-" ++ show_nat d.sequence))

  unfoldable pub batch_path : State → Text
  unfolding batch_name
  batch_path d =
      config.store_root ++ (codes "/orchestrator-publish/" ++ (batch_name d ++ codes ".json"))

  unfoldable pub submit : State → Pending → Act State Completed
  unfolding write_private_json unlinking attempt batch_path batch_name batch_json
  submit d p =
      let directory = codes "orchestrator-publish" in
      write_private_json env directory (batch_name d)
        (wrote directory (batch_name d) (batch_json p.batch))
      >> unlinking (attempt d p (batch_path d))

  -- What follows the end of the engine.
  unfoldable pub answer : Pending → Completed → Act State Unit
  unfolding message contains is_applied settle withdraw same save_state
  answer p c =
      if eqb_ℤ c.status (pos 0)
      then (if same p.operation (codes "population-only")
            && not (is_applied env config p.batch c.stdout)
          then raise configuration
          else (modify (settle p) >> save_state env))
      else if contains (codes "invalid-request") (message c)
      then (modify (withdraw p) >> save_state env >> raise configuration)
      else raise configuration

  unfoldable pub publish_pending : Act State Unit
  unfolding validate_workspace pending_of submit answer
  publish_pending =
      validate_workspace env config
      >> (inspect λ d. do p ← lift (pending_of d); c ← submit d p; answer p c)

  unfoldable pub publish : Text → Phase → List Json → Act State Unit
  unfolding prepare_publication publish_pending
  publish operation next events = prepare_publication operation next events >> publish_pending

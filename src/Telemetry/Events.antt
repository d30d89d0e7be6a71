-- ===== src/Telemetry/Events.antt =====
-- roadmap-telemetry.py `event` and `digest`, and the events that its operations publish.
use fs_quint.Base.{ℕ, zero, suc, ℤ, pos, Option, none, some, List, [], ◌∷◌, ◌++◌}
use fs_quint.Base.Text.{Text, codes, join}
use fs_quint.Host.Value.{Json, null, int, str, obj, Fields, end, field}
use fs_quint.Telemetry.Machine.{Relation, root, child, follow_up, Identity, State}
use fs_quint.Telemetry.Host.{Env}

unfoldable pub opt : Option Text → Json
opt none = null
opt (some t) = str t

unfoldable pub relation_text : Relation → Text
relation_text root = codes "root"
relation_text child = codes "child"
relation_text follow_up = codes "follow-up"

unfoldable pub values : List (Text × Json) → Fields
values [] = end
values ((k, v) ∷ kvs) = field k v (values kvs)

unfoldable pub revised : ℕ → Text → Text → Option Text → List (Text × Json) → Json
unfolding opt values
revised revision kind identity item rest = obj (
    field (codes "kind") (str kind) (
      field (codes "identity") (str identity) (
        field (codes "itemId") (opt item)
          (field (codes "revision") (int (pos revision)) (values rest)))))

unfoldable pub event : Text → Text → Option Text → List (Text × Json) → Json
unfolding revised
event = revised 0

prefix_of : ℕ → Text → Text
prefix_of zero s = []
prefix_of (suc n) [] = []
prefix_of (suc n) (c ∷ s) = c ∷ prefix_of n s

abbrev pub runtime : Text
runtime = codes "collaboration-spawn-agent"

module _ (env : Env) where
  unfoldable pub digest : Text → List Text → Text
  unfolding prefix_of join
  digest prefix parts = prefix ++ prefix_of 32 (env.sha256 (join (31 ∷ []) parts))

  root_events : Identity → Text → Text → List Json
  unfolding event digest
  root_events i original timestamp =
      event (codes "feature") i.feature none ((codes "name", str i.feature) ∷ [])
      ∷ event (codes "item") i.item (some i.item) ((codes "featureId", str i.feature) ∷ [])
      ∷ event (codes "budget-population")
          (digest (codes "budget-population-") (i.item ∷ original ∷ [])) (some i.item)
          ((codes "originalItemId", str original)
            ∷ (codes "state", str (codes "open"))
            ∷ (codes "sourceKind", str (codes "native-item"))
            ∷ (codes "sourceRef", str (digest (codes "roadmap-dispatch:") (i.item ∷ original ∷ [])))
            ∷ [])
      ∷ event (codes "operational-activation") (codes "operational-activation-" ++ i.activation)
          (some i.item)
          ((codes "activationId", str i.activation)
            ∷ (codes "scope", str (codes "explicit-future-dispatches"))
            ∷ (codes "runtime", str runtime)
            ∷ (codes "activatedAt", str timestamp)
            ∷ (codes "clockProvenance", str (codes "host-wall"))
            ∷ (codes "lateAfterSeconds", int (pos i.late_after_seconds))
            ∷ [])
      ∷ []

  parent_events : Identity → Option Text → List Json
  unfolding event digest
  parent_events i none = []
  parent_events i (some []) = []
  parent_events i (some (c ∷ s)) =
      event (codes "parent-child") (digest (codes "parent-child-") ((c ∷ s) ∷ i.attempt ∷ []))
        (some i.item) ((codes "parentId", str (c ∷ s)) ∷ (codes "childId", str i.attempt) ∷ [])
      ∷ []

  expected_event : Identity → Text → Json
  unfolding event relation_text opt
  expected_event i timestamp =
      event (codes "expected-dispatch") (codes "expected-dispatch-" ++ i.dispatch) (some i.item) (
        (codes "dispatchId", str i.dispatch)
        ∷ (codes "activationId", str i.activation)
        ∷ (codes "relation", str (relation_text i.relation))
        ∷ (codes "parentDispatchId", opt i.parent_dispatch)
        ∷ (codes "runtime", str runtime)
        ∷ (codes "expectedAt", str timestamp)
        ∷ (codes "clockProvenance", str (codes "host-wall"))
        ∷ [])

  for_relation : Relation → List Json → List Json
  for_relation root events = events
  for_relation _ events = []

  -- The events of `begin`, for the original item.
  unfoldable pub begin_events : Identity → Text → Text → List Json
  unfolding for_relation root_events parent_events expected_event
  begin_events i original timestamp =
      for_relation i.relation (root_events i original timestamp)
      ++ (parent_events i i.parent_attempt ++ (expected_event i timestamp ∷ []))

event_time : State → Text → Text → Json
unfolding event
event_time d kind timestamp =
    event (codes "event-time") (codes "event-time-" ++ (d.invocation ++ (codes "-" ++ kind)))
      (some d.identity.item)
      ((codes "invocationId", str d.invocation)
        ∷ (codes "event", str kind)
        ∷ (codes "occurredAt", str timestamp)
        ∷ (codes "occurredClockProvenance", str (codes "host-wall"))
        ∷ (codes "observedAt", str timestamp)
        ∷ (codes "observedClockProvenance", str (codes "host-wall"))
        ∷ [])

runtime_gap : State → Text → Text → Json
unfolding event
runtime_gap d name code =
    event (codes "runtime-gap") (codes "runtime-gap-" ++ (d.invocation ++ name))
      (some d.identity.item)
      ((codes "invocationId", str d.invocation) ∷ (codes "code", str code) ∷ [])

unfoldable pub runtime_start : State → Text → Json → Text → Json
unfolding event
runtime_start d name thread phase =
    event (codes "runtime-start") (name ++ d.invocation) (some d.identity.item) (
      (codes "invocationId", str d.invocation)
      ∷ (codes "threadId", thread)
      ∷ (codes "turnId", null)
      ∷ (codes "turnSequence", null)
      ∷ (codes "processId", int (pos 0))
      ∷ (codes "phase", str phase)
      ∷ [])

-- `not state.get("hostParentThreadId")` asks for the last event.
gap_events : State → Option Text → List Json
unfolding runtime_gap
gap_events d (some (c ∷ s)) = []
gap_events d _ =
    runtime_gap d (codes "-native-usage") (codes "native-collaboration-usage-unsupported") ∷ []

unfoldable pub started_events : State → Text → Text → List Json
unfolding event relation_text opt event_time runtime_gap runtime_start gap_events
started_events d native timestamp =
    let i = d.identity in
    event (codes "invocation-lineage") (codes "invocation-lineage-" ++ d.invocation) (some i.item) (
      (codes "dispatchId", str i.dispatch)
      ∷ (codes "invocationId", str d.invocation)
      ∷ (codes "relation", str (relation_text i.relation))
      ∷ (codes "parentInvocationId", opt i.parent_invocation)
      ∷ (codes "rootInvocationId", str i.root_invocation)
      ∷ (codes "runtime", str runtime)
      ∷ [])
    ∷ event (codes "runtime-admission") (codes "runtime-admission-" ++ d.invocation) (some i.item) (
        (codes "invocationId", str d.invocation)
        ∷ (codes "featureId", str i.feature)
        ∷ (codes "attemptId", str i.attempt)
        ∷ (codes "parentAttemptId", opt i.parent_attempt)
        ∷ (codes "producerStream", str i.producer_stream)
        ∷ (codes "requestedModel", str i.model)
        ∷ (codes "requestedEffort", str i.effort)
        ∷ (codes "backend", str (codes "codex-collaboration"))
        ∷ [])
    ∷ runtime_start d (codes "runtime-process-") (str native) (codes "process")
    ∷ event_time d (codes "admission") timestamp
    ∷ event_time d (codes "start") timestamp
    ∷ runtime_gap d (codes "-native-process") (codes "native-process-id-unavailable")
    ∷ gap_events d i.host_parent_thread

unfoldable pub finish_events : State → Text → ℤ → Text → List Json
unfolding event opt event_time
finish_events d outcome exit_code timestamp =
    event (codes "runtime-terminal") (codes "runtime-terminal-" ++ d.invocation)
      (some d.identity.item)
      ((codes "invocationId", str d.invocation)
        ∷ (codes "threadId", opt d.native_id)
        ∷ (codes "outcome", str outcome)
        ∷ (codes "exitCode", int exit_code)
        ∷ [])
    ∷ event_time d (codes "terminal") timestamp
    ∷ []

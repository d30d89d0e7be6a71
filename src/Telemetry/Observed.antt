-- ===== src/Telemetry/Observed.antt =====
-- roadmap-telemetry.py `review`, `activity`, `attribution` and `complication`: what they publish.
use fs_quint.Base.{Bool, true, false, ◌&&◌, List, [], ◌∷◌, map}
use fs_quint.Base.Text.{Text, codes}
use fs_quint.Host.Value.{Json, null, str, obj, Fields, field, end, get_or_null}
use fs_quint.Usage.{configuration, Tried, done, threw, ◌>>=◌}
use fs_quint.Telemetry.Machine.{Phase, started, terminal, root, State}
use fs_quint.Telemetry.Host.{Env}
use fs_quint.Telemetry.Events.{digest}
use fs_quint.Telemetry.Identity.{validate_identity}
use fs_quint.Telemetry.Matching.{same_relation}
use fs_quint.Telemetry.Publish.{same_phase}

pub data Scope : Type 0 where
  attempt item : Scope

abbrev pub review_fields : List Text
review_fields = map codes (
    "revision" ∷ "outcomeSynopsis" ∷ "wentWell" ∷ "problems" ∷ "avoidableDelayOrRework"
    ∷ "processObservations" ∷ "remainingRisks" ∷ "concreteImprovements" ∷ "evidence"
    ∷ "evidenceCoverage" ∷ "populationCoverage" ∷ "confidence" ∷ "reviewerModel" ∷ "reviewerEffort"
    ∷ "reviewedAt" ∷ "durationSeconds" ∷ [])

abbrev pub activity_fields : List Text
activity_fields = map codes (
    "revision" ∷ "activityId" ∷ "category" ∷ "startedAt" ∷ "endedAt" ∷ "clockProvenance"
    ∷ "evidence" ∷ "summary" ∷ [])

abbrev pub attribution_fields : List Text
attribution_fields = map codes (
    "revision" ∷ "usageIdentity" ∷ "activityId" ∷ "classification" ∷ "input" ∷ "cachedInput"
    ∷ "output" ∷ "reasoning" ∷ "total" ∷ [])

-- Without `complicationId`, which the published event leaves out.
abbrev pub complication_fields : List Text
complication_fields =
    map codes (
      "revision" ∷ "activityId" ∷ "trigger" ∷ "cause" ∷ "occurredAt" ∷ "synopsis" ∷ "evidence" ∷ [])

abbrev pub review_schema : Text
review_schema = codes "fsgg.telemetry.process-review-input/1"

abbrev pub activity_schema : Text
activity_schema = codes "fsgg.telemetry.activity-span-input/1"

abbrev pub attribution_schema : Text
attribution_schema = codes "fsgg.telemetry.activity-usage-attribution-input/1"

abbrev pub complication_schema : Text
complication_schema = codes "fsgg.telemetry.complication-input/1"

-- An event with its kind and identity, which name the publication.
pub record Publication : Type 0 where
  pub kind : Text
  pub identity : Text
  pub event : Json

unfoldable pub is_open : Phase → Bool
is_open started = true
is_open terminal = true
is_open _ = false

-- A review is of a terminal attempt, and of an item only with the token of its root.
unfoldable pub review_allowed : State → Scope → Bool
unfolding same_phase same_relation
review_allowed d attempt = same_phase d.phase terminal
review_allowed d item = same_phase d.phase terminal && same_relation d.identity.relation root

-- `{name: value[name] for name in fields}`
unfoldable pub copied : List Text → Fields → Fields
unfolding get_or_null
copied [] value = end
copied (k ∷ ks) value = field k (get_or_null k value) (copied ks value)

unfoldable pub identity_at : Text → Fields → Tried Text
unfolding validate_identity get_or_null
identity_at key value = elim (get_or_null key value) [
  | str t ↦ validate_identity t
  | _ ↦ threw configuration
]

scope_text : Scope → Text
scope_text attempt = codes "attempt"
scope_text item = codes "item"

subject : State → Scope → Text
subject d attempt = d.identity.attempt
subject d item = d.identity.item

scope_attempt : State → Scope → Json
scope_attempt d attempt = str d.identity.attempt
scope_attempt d item = null

module _ (env : Env) where
  unfoldable pub subject_identity : Text → State → Text → Text
  unfolding digest
  subject_identity prefix d id = digest env prefix (d.identity.item ∷ id ∷ [])

  unfoldable pub review_identity : State → Scope → Text
  unfolding digest scope_text subject
  review_identity d scope =
      digest env (codes "process-review-")
        (scope_text scope ∷ d.identity.item ∷ subject d scope ∷ [])

  observed : Text → Text → State → Fields → Publication
  observed kind identity d rest = record {
    kind = kind;
    identity = identity;
    event = obj (
        field (codes "kind") (str kind) (
          field (codes "identity") (str identity)
            (field (codes "itemId") (str d.identity.item) rest)));
  }

  unfoldable pub review_publication : State → Scope → Fields → Tried Publication
  unfolding observed review_identity scope_text scope_attempt copied
  review_publication d scope value = done (
      observed (codes "process-review") (review_identity d scope) d (
        field (codes "scope") (str (scope_text scope))
          (field (codes "attemptId") (scope_attempt d scope) (copied review_fields value))))

  activity_event : State → Fields → Text → Publication
  unfolding observed subject_identity copied
  activity_event d value id =
      observed (codes "activity-span") (subject_identity (codes "activity-span-") d id) d (
        field (codes "invocationId") (str d.invocation)
          (field (codes "attemptId") (str d.identity.attempt) (copied activity_fields value)))

  unfoldable pub activity_publication : State → Fields → Tried Publication
  unfolding identity_at activity_event
  activity_publication d value =
      identity_at (codes "activityId") value >>= λ id. done (activity_event d value id)

  attribution_event : State → Fields → Text → Publication
  unfolding observed subject_identity copied
  attribution_event d value id =
      observed (codes "activity-usage-attribution")
        (subject_identity (codes "activity-usage-") d id) d (copied attribution_fields value)

  unfoldable pub attribution_publication : State → Fields → Tried Publication
  unfolding identity_at attribution_event
  attribution_publication d value =
      identity_at (codes "usageIdentity") value >>= λ id. done (attribution_event d value id)

  complication_event : State → Fields → Text → Publication
  unfolding observed subject_identity copied
  complication_event d value id =
      observed (codes "complication") (subject_identity (codes "complication-") d id) d
        (field (codes "attemptId") (str d.identity.attempt) (copied complication_fields value))

  unfoldable pub complication_publication : State → Fields → Tried Publication
  unfolding identity_at complication_event
  complication_publication d value =
      identity_at (codes "complicationId") value >>= λ id. done (complication_event d value id)

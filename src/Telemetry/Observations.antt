-- ===== src/Telemetry/Observations.antt =====
-- roadmap-telemetry.py `read_contract`, `record_event`, `review`, `activity`, `attribution` and
-- `complication`: observations on a dispatch, from private files of an exact shape.
use fs_quint.Base.{Bool, not, ◌&&◌, ◌||◌, Option, none, some, List, ◌∷◌, ◌++◌, ltb, if◌then◌else◌}
use fs_quint.Base.Text.{Text, codes, same_set}
use fs_quint.Host.Value.{Json, obj, Fields, get_or_null, is_text, keys}
use fs_quint.Usage.{configuration, Tried, done, threw}
use fs_quint.Telemetry.Machine.{
  terminal, root, State, Act, pure, raise, lift, observe, using, ◌>>=◌, ◌>>◌,
}
use fs_quint.Telemetry.Host.{Env, HostConfig, Contract}
use fs_quint.Telemetry.Files.{read_state}
use fs_quint.Telemetry.Matching.{same_relation}
use fs_quint.Telemetry.Publish.{same_phase}
use fs_quint.Telemetry.Reconcile.{observe_event}
use fs_quint.Telemetry.Lifecycle.{drain, is_drained, dashboard_if}
use fs_quint.Telemetry.Observed.{
  Scope, review_fields, activity_fields, attribution_fields, complication_fields, is_open,
  review_allowed, Publication, review_publication, activity_publication, attribution_publication,
  complication_publication, review_schema, activity_schema, attribution_schema, complication_schema,
}
use fs_quint.Telemetry.Dashboard.{Dashboard}

-- The exact shape of a contract.
unfoldable pub shaped : Text → List Text → Json → Tried Fields
unfolding is_text get_or_null same_set keys
shaped schema fields (obj fs) =
    if is_text schema (get_or_null (codes "schema") fs)
      && same_set (keys fs) (codes "schema" ∷ fields)
    then done fs
    else threw configuration
shaped schema fields _ = threw configuration

-- A file that may not be read, or holds no JSON, is refused.
unfoldable pub contract : Env → Text → List Text → Contract → Tried Fields
unfolding shaped
contract env schema fields f =
    if f.symlink || not f.regular || ltb 32768 f.size then threw configuration else elim f.text [
      | none ↦ threw configuration
      | some t ↦ elim (env.loads t) [ none ↦ threw configuration | some v ↦ shaped schema fields v ]
    ]

-- What the four commands print.
pub record Recorded : Type 0 where
  pub kind : Text
  pub dashboard : Option Dashboard

module _ (env : Env) (config : HostConfig) where
  unfoldable pub read_contract : Text → Text → List Text → Act Unit Fields
  unfolding contract
  read_contract path schema fields =
      observe (λ w. env.contract w path) >>= λ f. lift (contract env schema fields f)

  unfoldable pub record_event : Text → Text → Json → Act State Unit
  unfolding observe_event
  record_event kind identity e =
      observe_event env config (codes "observation:" ++ (kind ++ (codes ":" ++ identity))) e

  -- The observation is published and the engine drained.
  unfoldable pub recorded : State → Publication → Act Unit Recorded
  unfolding record_event drain is_drained dashboard_if same_phase same_relation
  recorded d p = do
    using d (record_event p.kind p.identity p.event)
    c ← drain env config
    if is_drained env config c then pure tt else raise configuration
    dashboard ←
        dashboard_if env config
          (same_phase d.phase terminal && same_relation d.identity.relation root)
    pure (record { kind = p.kind; dashboard = dashboard })

  -- What a contract asks to publish is recorded, where the state allows it.
  unfoldable pub contracted :
      Bool → Text → Text → List Text → (Fields → Tried Publication) → State → Act Unit Recorded
  unfolding read_contract recorded
  contracted allowed path schema fields f d = do
    if allowed then pure tt else raise configuration
    value ← read_contract path schema fields
    p ← lift (f value)
    recorded d p

  unfoldable pub review_with : Scope → Text → State → Act Unit Recorded
  unfolding contracted review_allowed review_publication
  review_with scope path d =
      contracted (review_allowed d scope) path review_schema review_fields
        (review_publication env d scope) d

  unfoldable pub review : Text → Scope → Text → Act Unit Recorded
  unfolding read_state review_with
  review token scope path = read_state env config token >>= review_with scope path

  unfoldable pub activity_with : Text → State → Act Unit Recorded
  unfolding contracted is_open activity_publication
  activity_with path d =
      contracted (is_open d.phase) path activity_schema activity_fields (activity_publication env d)
        d

  unfoldable pub activity : Text → Text → Act Unit Recorded
  unfolding read_state activity_with
  activity token path = read_state env config token >>= activity_with path

  unfoldable pub attribution_with : Text → State → Act Unit Recorded
  unfolding contracted same_phase attribution_publication
  attribution_with path d =
      contracted (same_phase d.phase terminal) path attribution_schema attribution_fields
        (attribution_publication env d) d

  unfoldable pub attribution : Text → Text → Act Unit Recorded
  unfolding read_state attribution_with
  attribution token path = read_state env config token >>= attribution_with path

  unfoldable pub complication_with : Text → State → Act Unit Recorded
  unfolding contracted is_open complication_publication
  complication_with path d =
      contracted (is_open d.phase) path complication_schema
        (codes "complicationId" ∷ complication_fields) (complication_publication env d) d

  unfoldable pub complication : Text → Text → Act Unit Recorded
  unfolding read_state complication_with
  complication token path = read_state env config token >>= complication_with path

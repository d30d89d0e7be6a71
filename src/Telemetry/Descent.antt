-- ===== src/Telemetry/Descent.antt =====
-- roadmap-telemetry.py `begin`: its arguments, and what a dispatch takes over from its parent.
use fs_quint.Base.{
  ℤ, pos, pos_part, Bool, true, false, not, ◌&&◌, ◌||◌, Option, none, some, List, [], ◌∷◌, ltb_ℤ,
  if◌then◌else◌,
}
use mathlib.Core.Option
use fs_quint.Base.Text.{Text, codes, same, empty}
use fs_quint.Usage.{configuration, host_unavailable, os_error, subprocess_error, Tried, done, threw}
use fs_quint.Usage.Turns.{Native}
use fs_quint.Usage.Collect.{collect}
use fs_quint.Usage.Child.{is_uuid}
use fs_quint.Telemetry.Machine.{
  Phase, started, terminal, Relation, root, follow_up, State, Act, pure, lift, observe, ◌>>=◌,
}
use fs_quint.Telemetry.Host.{Env}
use fs_quint.Telemetry.Command.{text_of}
use fs_quint.Telemetry.Identity.{is_identity, validate_optional}
use fs_quint.Telemetry.Files.{same_option}
use fs_quint.Telemetry.Matching.{Expected, original_or}

pub record BeginArgs : Type 0 where
  pub feature : Text
  pub item : Text
  pub original_item : Option Text
  pub attempt : Text
  pub parent_attempt : Option Text
  pub parent_token : Option Text
  pub relation : Relation
  pub producer : Text
  pub model : Text
  pub effort : Text
  pub late_after_seconds : ℤ

-- What `begin` and `started` print.
pub record Reply : Type 0 where
  pub token : Text
  pub coverage : Text

unfoldable pub filled : Option Text → Bool
filled none = false
filled (some t) = not (empty t)

unfoldable pub prospective_coverage : State → Text
unfolding filled
prospective_coverage d =
    if filled d.identity.host_parent_thread
    then codes "native-collaboration-usage-unknown"
    else codes "native-collaboration-usage-unsupported"

-- `args.original_item or item`
unfoldable pub given_original : Option Text → Text → Text
given_original none item = item
given_original (some t) item = if empty t then item else t

is_valid : Tried (Option Text) → Bool
is_valid (done t) = true
is_valid (threw e) = false

-- `validate_identity` of one argument after the other.
unfoldable pub all_valid : List Text → Tried (Unit {0})
unfolding is_identity
all_valid [] = done tt
all_valid (t ∷ ts) = let rest = all_valid ts in if is_identity t then rest else threw configuration

-- The checks at the head of `begin`.
unfoldable pub check_args : BeginArgs → Tried (Unit {0})
unfolding given_original all_valid validate_optional is_valid
check_args a =
    if is_valid (validate_optional a.parent_attempt) && not (ltb_ℤ a.late_after_seconds (pos 0))
    then all_valid (
        a.feature
        ∷ a.item
        ∷ given_original a.original_item a.item
        ∷ a.attempt
        ∷ a.producer
        ∷ a.model
        ∷ a.effort
        ∷ [])
    else threw configuration

-- What a dispatch takes over from its parent, if it has one.
pub record Descent : Type 0 where
  pub original : Text
  pub digest : Option Text
  pub relation : Relation
  pub parent : Option State

is_live : Phase → Bool
is_live started = true
is_live terminal = true
is_live _ = false

-- The original item of a child that names none is the parent's.
inherited_original : Option Text → Text → Text → Text
unfolding given_original
inherited_original none theirs item = theirs
inherited_original (some t) theirs item = given_original (some t) item

unfoldable pub descend : BeginArgs → State → Tried Descent
unfolding is_live same original_or inherited_original
descend a d =
    let theirs = original_or d.identity.original_item a.item in
    let mine = inherited_original a.original_item theirs a.item in
    if is_live d.phase && same d.identity.item a.item && same theirs mine
    then done (record {
      original = mine;
      digest = d.identity.original_assignment_digest;
      relation = a.relation;
      parent = some d;
    })
    else threw configuration

unfoldable pub expected_of : BeginArgs → Descent → Expected
expected_of a x = record {
  feature = a.feature;
  item = a.item;
  original_item = x.original;
  original_assignment_digest = x.digest;
  attempt = a.attempt;
  parent_attempt = a.parent_attempt;
  producer_stream = a.producer;
  model = a.model;
  effort = a.effort;
  relation = x.relation;
  parent_dispatch = Option.map (λ d. d.identity.dispatch) x.parent;
  parent_invocation = Option.map (λ d. d.invocation) x.parent;
  late_after_seconds = pos_part a.late_after_seconds;
}

-- `CODEX_THREAD_ID`, for a dispatch that is no root; what is no UUID counts as missing.
unfoldable pub host_parent : Env → Relation → Option Text
unfolding is_uuid
host_parent env root = none
host_parent env r = elim (env.environ (codes "CODEX_THREAD_ID")) [
  | none ↦ none
  | some t ↦ if empty t || is_uuid t then some t else none
]

-- The turns of the child that an earlier dispatch accounted for, and whether they are known.
pub record Baseline : Type 0 where
  pub turns : List Text
  pub known : Bool

-- `except (HostUnavailable, OSError, subprocess.SubprocessError)`
unfoldable pub usage_or_none : Tried Native → Tried (Option Native)
usage_or_none (done n) = done (some n)
usage_or_none (threw host_unavailable) = done none
usage_or_none (threw os_error) = done none
usage_or_none (threw subprocess_error) = done none
usage_or_none (threw e) = threw e

unfoldable pub baseline_of : Option Native → Baseline
baseline_of none = record { turns = []; known = false }
baseline_of (some n) = record { turns = n.all_turn_ids; known = true }

module _ (env : Env) where
  unfoldable pub collect_native_usage : {S : Type 0} → Text → Text → Act S (Option Native)
  unfolding collect usage_or_none
  collect_native_usage parent native = do
    r ← observe (λ w. ((collect (env.codex w) parent native) []).result)
    lift (usage_or_none r)

  unfoldable pub unknown : Baseline
  unknown = record { turns = []; known = false }

  unfoldable pub follow_up_baseline : Option Text → State → Act Unit Baseline
  unfolding collect_native_usage baseline_of unknown same_option text_of
  follow_up_baseline none d = pure unknown
  follow_up_baseline (some host) d =
      if not (empty host) && same_option d.identity.host_parent_thread (some host)
      then (do n ← collect_native_usage host (text_of d.native_id); pure (baseline_of n))
      else pure unknown

  unfoldable pub baseline : Relation → Option Text → Option State → Act Unit Baseline
  unfolding follow_up_baseline unknown
  baseline follow_up host (some d) = follow_up_baseline host d
  baseline follow_up host none = pure unknown
  baseline r host parent = pure (record { turns = []; known = true })

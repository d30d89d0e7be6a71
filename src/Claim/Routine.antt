-- ===== src/Claim/Routine.antt =====
-- check-claim-generation.py `evaluate_routine`, `routine_changed_paths` and `routine_is_ancestor`.
pub mod Admission
pub mod Evidence
pub mod Reading
use fs_quint.Base.{
  ℕ, Bool, true, false, not, ◌&&◌, ◌||◌, Option, none, some, List, [], ◌∷◌, ◌++◌, length, select,
  pos, eqb_ℤ, if◌then◌else◌,
}
use fs_quint.Base.Text.{Text, codes, same, member, lower, starts_with, splitlines, empty}
use fs_quint.Host.{
  Exception, gate_error, crash, Proc, not_started, timed_out, exited, Env, Exec, pure, raise, ◌>>=◌,
  execute,
}
use fs_quint.Host.Value.{Json, arr, Fields, get_or_null, is_text, items, as_text}
use fs_quint.Claim.Marker.{Dict, Marker, get, marker_fields, routine_development}
use fs_quint.Claim.Shape.{is_head_sha}
use fs_quint.Claim.Policy.{load_routine_policy}

pub record Request : Type 0 where
  pub head_ref : Text
  pub head_sha : Text
  pub base_sha : Option Text
  pub routine_policy : Text
  pub routine_policy_ref : Option Text
  pub previous_head : Option Text

pub data RoutineVerdict : Type 0 where
  marker_count : ℕ → RoutineVerdict
  ambiguous missing_fields : List Text → RoutineVerdict
  changed_head protected_operation : Text → RoutineVerdict
  no_change : RoutineVerdict
  admitted provisional : Text → List Text → RoutineVerdict

-- The exit code of a verdict is green for these two alone.
unfoldable pub is_admitted : RoutineVerdict → Bool
is_admitted (admitted operation changed) = true
is_admitted (provisional operation changed) = true
is_admitted _ = false

unfoldable pub or_blank : Option Text → Text
or_blank none = []
or_blank (some v) = v

unfoldable pub blank : Option Text → Bool
unfolding or_blank
blank v = empty (or_blank v)

-- The texts of a policy field; `load_routine_policy` made sure that it is a list of texts.
text_items : List Json → List Text
unfolding as_text
text_items [] = []
text_items (v ∷ vs) = elim (as_text v) [ none ↦ text_items vs | some s ↦ s ∷ text_items vs ]

list_of : Json → List Text
unfolding text_items items
list_of (arr vs) = text_items (items vs)
list_of _ = []

unfoldable pub policy_list : Text → Fields → List Text
unfolding list_of get_or_null
policy_list key policy = list_of (get_or_null key policy)

-- The fields of the marker that are missing, and its values.
unfoldable pub missing_of : Marker → List Text
unfolding blank get
missing_of m = select (λ k. blank (get k m.fields)) (codes "head" ∷ codes "operation" ∷ [])

unfoldable pub marker_value : Text → Marker → Text
unfolding or_blank get
marker_value k m = or_blank (get k m.fields)

-- What the marker's head is to the pull request.
pub data HeadMatch : Type 0 where
  exact push_parent stale_head : HeadMatch

names_previous : Text → Option Text → Bool
unfolding lower same or_blank blank
names_previous head previous = not (blank previous) && same (lower head) (lower (or_blank previous))

-- `base_sha` is present and a commit.
unfoldable pub valid_base : Option Text → Bool
unfolding or_blank blank is_head_sha lower
valid_base base = not (blank base) && is_head_sha (lower (or_blank base))

parent_match : Bool → HeadMatch
parent_match true = push_parent
parent_match false = stale_head

unfoldable pub admit : HeadMatch → Text → List Text → RoutineVerdict
admit exact operation [] = no_change
admit exact operation (p ∷ ps) = admitted operation (p ∷ ps)
admit push_parent operation [] = no_change
admit push_parent operation (p ∷ ps) = provisional operation (p ∷ ps)
admit stale_head operation paths = changed_head operation

unfoldable pub routine_prefix : Request → Fields → Bool
unfolding is_text get_or_null starts_with
routine_prefix r policy =
    is_text (codes "routine/") (get_or_null (codes "branchPrefix") policy)
    && starts_with r.head_ref (codes "routine/")

module _ (env : Env) where
  -- Only the exit status 0 proves the ancestry.
  ancestor_answer : Proc → Exec Bool
  ancestor_answer (exited status out err) = pure (eqb_ℤ status (pos 0))
  ancestor_answer _ = raise crash

  unfoldable pub routine_is_ancestor : Text → Text → Exec Bool
  unfolding execute lower ancestor_answer
  routine_is_ancestor ancestor head = do
    p ←
        execute env
          (codes "git"
            ∷ codes "merge-base"
            ∷ codes "--is-ancestor"
            ∷ lower ancestor
            ∷ lower head
            ∷ [])
          none
    ancestor_answer p

  listed_paths : Proc → Exec (List Text)
  unfolding splitlines
  listed_paths (exited status out err) =
      if eqb_ℤ status (pos 0)
      then pure (select (λ line. not (empty line)) (splitlines out))
      else raise gate_error
  listed_paths _ = raise crash

  unfoldable pub routine_changed_paths : Text → Text → Exec (List Text)
  unfolding execute listed_paths
  routine_changed_paths base head = do
    p ←
        execute env
          (codes "git"
            ∷ codes "diff"
            ∷ codes "--name-only"
            ∷ (base ++ (codes ".." ++ head))
            ∷ codes "--"
            ∷ [])
          none
    listed_paths p

  unfoldable pub head_match : Request → Text → Exec HeadMatch
  unfolding lower same names_previous routine_is_ancestor parent_match or_blank
  head_match r head =
      if same (lower head) (lower r.head_sha)
      then pure exact
      else if names_previous head r.previous_head
      then (do
        yes_it_is ← routine_is_ancestor (or_blank r.previous_head) r.head_sha
        pure (parent_match yes_it_is))
      else pure stale_head

  -- Behind the head: the operation, and the paths between the exact commits.
  check_operation : Request → Fields → HeadMatch → Text → Exec RoutineVerdict
  unfolding member policy_list routine_changed_paths or_blank lower admit
  check_operation r policy how operation =
      if member operation (policy_list (codes "protectedOperations") policy)
        || not (member operation (policy_list (codes "allowedOperations") policy))
      then pure (protected_operation operation)
      else (do
        changed ← routine_changed_paths (lower (or_blank r.base_sha)) (lower r.head_sha)
        pure (admit how operation changed))

  check_head : Request → Fields → Marker → HeadMatch → Exec RoutineVerdict
  unfolding check_operation marker_value
  check_head r policy m stale_head = pure (changed_head (marker_value (codes "head") m))
  check_head r policy m how = check_operation r policy how (marker_value (codes "operation") m)

  check_marker : Request → Fields → Marker → Exec RoutineVerdict
  unfolding check_head missing_of marker_value head_match
  check_marker r policy m = elim m.duplicates [
    | k ∷ ks ↦ pure (ambiguous (k ∷ ks))
    | [] ↦ elim (missing_of m) [
      | f ∷ fs ↦ pure (missing_fields (f ∷ fs))
      | [] ↦ (do how ← head_match r (marker_value (codes "head") m); check_head r policy m how)
    ]
  ]

  one_marker : Request → Fields → List Marker → Exec RoutineVerdict
  unfolding check_marker
  one_marker r policy (m ∷ []) = check_marker r policy m
  one_marker r policy ms = pure (marker_count (length ms))

  unfoldable pub evaluate_routine : Request → Text → Exec RoutineVerdict
  unfolding valid_base load_routine_policy routine_prefix marker_fields one_marker
  evaluate_routine r body = if not (valid_base r.base_sha) then raise gate_error else (do
    policy ← load_routine_policy env r.routine_policy r.routine_policy_ref
    if not (routine_prefix r policy)
        then raise gate_error
        else one_marker r policy (marker_fields routine_development body))

-- ===== src/Claim/Routine/Reading.antt =====
-- The routine evaluation only reads.
use fs_quint.Base.{pos, Bool, not, none, List, [], ◌∷◌, eqb_ℤ}
use fs_quint.Base.Text.{Text, codes, same, lower}
use fs_quint.Host.{Proc, not_started, timed_out, exited, crash, gate_error, Event, Env, execute}
use fs_quint.Host.Logs.{Logs, Logs-pure, Logs-raise, Logs->>=, Logs-execute, Logs-if, Logs-list}
use fs_quint.Host.Value.{Fields}
use fs_quint.Claim.Transport.Reading.{IsRead, related, compared}
use fs_quint.Claim.Marker.{Marker, marker_fields, routine_development}
use fs_quint.Claim.Policy.{load_routine_policy}
use fs_quint.Claim.Policy.Reading.{load_routine_policy-Logs}
use fs_quint.Claim.Routine.{
  Request, RoutineVerdict, HeadMatch, exact, push_parent, stale_head, missing_of, marker_value,
  names_previous, valid_base, routine_prefix, ancestor_answer, listed_paths, routine_is_ancestor,
  routine_changed_paths, head_match, check_operation, check_head, check_marker, one_marker,
  evaluate_routine,
}

module _ {P : Event → Type 0} (reads : (x : Event) → IsRead x → P x) (env : Env) where
  answer-Logs : (p : Proc) → Logs P (ancestor_answer env p)
  unfolding ancestor_answer
  answer-Logs not_started = Logs-raise Bool crash
  answer-Logs timed_out = Logs-raise Bool crash
  answer-Logs (exited status out err) = Logs-pure _

  ancestor-Logs : (a h : Text) → Logs P (routine_is_ancestor env a h)
  unfolding routine_is_ancestor
  ancestor-Logs a h =
      Logs->>= (execute env _ none) _ (Logs-execute env _ none (reads _ (related _ _))) answer-Logs

  listed-Logs : (p : Proc) → Logs P (listed_paths env p)
  unfolding listed_paths
  listed-Logs not_started = Logs-raise (List Text) crash
  listed-Logs timed_out = Logs-raise (List Text) crash
  listed-Logs (exited status out err) =
      Logs-if (eqb_ℤ status (pos 0)) _ _ (Logs-pure _) (Logs-raise (List Text) gate_error)

  paths-Logs : (b h : Text) → Logs P (routine_changed_paths env b h)
  unfolding routine_changed_paths
  paths-Logs b h =
      Logs->>= (execute env _ none) _ (Logs-execute env _ none (reads _ (compared _))) listed-Logs

  head_match-Logs : (r : Request) (head : Text) → Logs P (head_match env r head)
  unfolding head_match
  head_match-Logs r head = Logs-if (same (lower head) (lower r.head_sha)) _ _ (Logs-pure exact) (
      Logs-if (names_previous head r.previous_head) _ _
        (Logs->>= (routine_is_ancestor env _ _) _ (ancestor-Logs _ _) (λ b. Logs-pure _))
        (Logs-pure stale_head))

  check_operation-Logs :
      (r : Request) (policy : Fields) (how : HeadMatch) (operation : Text)
      → Logs P (check_operation env r policy how operation)
  unfolding check_operation
  check_operation-Logs r policy how operation =
      Logs-if _ _ _ (Logs-pure _)
        (Logs->>= (routine_changed_paths env _ _) _ (paths-Logs _ _) (λ paths. Logs-pure _))

  check_head-Logs :
      (r : Request) (policy : Fields) (m : Marker) (how : HeadMatch)
      → Logs P (check_head env r policy m how)
  unfolding check_head
  check_head-Logs r policy m exact = check_operation-Logs r policy exact _
  check_head-Logs r policy m push_parent = check_operation-Logs r policy push_parent _
  check_head-Logs r policy m stale_head = Logs-pure _

  check_marker-Logs :
      (r : Request) (policy : Fields) (m : Marker) → Logs P (check_marker env r policy m)
  unfolding check_marker
  check_marker-Logs r policy m =
      Logs-list m.duplicates _ _
        (Logs-list (missing_of m) _ _
          (Logs->>= (head_match env r (marker_value (codes "head") m)) _
            (head_match-Logs r (marker_value (codes "head") m)) (check_head-Logs r policy m))
          (λ f fs. Logs-pure _))
        (λ k ks. Logs-pure _)

  one_marker-Logs :
      (r : Request) (policy : Fields) (ms : List Marker) → Logs P (one_marker env r policy ms)
  unfolding one_marker
  one_marker-Logs r policy [] = Logs-pure _
  one_marker-Logs r policy (m ∷ []) = check_marker-Logs r policy m
  one_marker-Logs r policy (m ∷ n ∷ ms) = Logs-pure _

  pub evaluate_routine-Logs : (r : Request) (body : Text) → Logs P (evaluate_routine env r body)
  unfolding evaluate_routine
  evaluate_routine-Logs r body =
      Logs-if (not (valid_base r.base_sha)) _ _ (Logs-raise RoutineVerdict gate_error) (
        Logs->>= (load_routine_policy env r.routine_policy r.routine_policy_ref) _
          (load_routine_policy-Logs reads env r.routine_policy r.routine_policy_ref)
          λ policy.
            Logs-if (not (routine_prefix r policy)) _ _ (Logs-raise RoutineVerdict gate_error)
              (one_marker-Logs r policy (marker_fields routine_development body)))

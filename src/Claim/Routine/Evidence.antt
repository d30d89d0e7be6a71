-- ===== src/Claim/Routine/Evidence.antt =====
-- The evidence behind an admitted routine pull request.
use fs_quint.Base.{◌≡◌, true, false, List, [], ◌∷◌, ◌++◌, none, pos, not, select}
use fs_quint.Base.Text.{starts_with, empty, splitlines}
use fs_quint.Host.{exited}
use fs_quint.Host.Value.{str, get_or_null}
use fs_quint.Claim.Policy.Checked.{IsLoaded}
use fs_quint.Claim.Routine.{head_match}
use fs_quint.Base.Text.{Text, codes, member, lower}
use fs_quint.Host.{World, Env}
use fs_quint.Host.Value.{Fields}
use fs_quint.Claim.Marker.{get, Marker, marker_fields, routine_development}
use fs_quint.Claim.Policy.{load_routine_policy}
use fs_quint.Claim.Routine.{
  Request, RoutineVerdict, or_blank, blank, policy_list, marker_value, HeadMatch, exact,
  push_parent, stale_head, valid_base, admit,
}

-- `git` said at that time that the first is an ancestor of the second.
abbrev pub IsAncestor : Env → Text → Text → World → Type 0
IsAncestor env ancestor head w =
    (out : Text) × (err : Text) × (env.proc w
        (codes "git"
          ∷ codes "merge-base"
          ∷ codes "--is-ancestor"
          ∷ lower ancestor
          ∷ lower head
          ∷ [])
        none
      ≡ exited (pos 0) out err)

-- What is known of the marker's head: it is the head of the pull request, or it is the previous head
-- and `git` said that the new head descends from it.
abbrev pub IsProved : Env → Request → Text → World → HeadMatch → Type 0
IsProved env r head w exact = lower head ≡ lower r.head_sha
IsProved env r head w push_parent =
    (blank r.previous_head ≡ false)
    × (lower head ≡ lower (or_blank r.previous_head))
    × IsAncestor env (or_blank r.previous_head) r.head_sha w
IsProved env r head w stale_head = ⊥

-- The lines that `git diff` printed between the two commits at that time, without the empty ones.
pub record IsChanged (env : Env) (base head : Text) (w : World) (paths : List Text) : Type 0 where
  pub out : Text
  pub err : Text
  pub printed :
      env.proc w
        (codes "git"
          ∷ codes "diff"
          ∷ codes "--name-only"
          ∷ (base ++ (codes ".." ++ head))
          ∷ codes "--"
          ∷ [])
        none
      ≡ exited (pos 0) out err
  pub lines : paths ≡ select (λ line. not (empty line)) (splitlines out)

-- An operation that the policy allows and does not protect, on at least one changed path.
pub record Operation (env : Env) (r : Request) (policy : Fields) (how : HeadMatch)
    (operation : Text) (w : World) (v : RoutineVerdict) : Type 0 where
  pub allowed : member operation (policy_list (codes "allowedOperations") policy) ≡ true
  pub unprotected : member operation (policy_list (codes "protectedOperations") policy) ≡ false
  pub first : Text
  pub others : List Text
  pub changed : IsChanged env (lower (or_blank r.base_sha)) (lower r.head_sha) w (first ∷ others)
  pub verdict : v ≡ admit how operation (first ∷ others)

-- One marker that says everything once, a proved head and a proper operation, the paths read right
-- behind the head.
pub record Marked (env : Env) (r : Request) (policy : Fields) (m : Marker) (w : World)
    (v : RoutineVerdict) : Type 0 where
  pub unambiguous : m.duplicates ≡ []
  pub head_given : blank (get (codes "head") m.fields) ≡ false
  pub operation_given : blank (get (codes "operation") m.fields) ≡ false
  pub how : HeadMatch
  pub head : IsProved env r (marker_value (codes "head") m) w how
  pub operation :
      Operation env r policy how
        (marker_value (codes "operation") m)
        (head_match env r (marker_value (codes "head") m) w).world
        v

-- A policy that was loaded and checked, and the one marker of the body under it.
pub record Admission (env : Env) (r : Request) (body : Text) (w : World) (v : RoutineVerdict)
    : Type 0 where
  pub base : valid_base r.base_sha ≡ true
  pub policy : Fields
  pub loaded : IsLoaded env r.routine_policy r.routine_policy_ref w policy
  pub prefix : get_or_null (codes "branchPrefix") policy ≡ str (codes "routine/")
  pub branch : starts_with r.head_ref (codes "routine/") ≡ true
  pub marker : Marker
  pub only : marker_fields routine_development body ≡ marker ∷ []
  pub marked :
      Marked env r policy marker
        (load_routine_policy env r.routine_policy r.routine_policy_ref w).world
        v

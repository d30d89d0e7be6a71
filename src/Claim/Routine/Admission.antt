-- ===== src/Claim/Routine/Admission.antt =====
-- What an admitted routine pull request has shown.
use fs_quint.Host.{raise, gate_error, Proc, not_started, timed_out, exited, execute}
use fs_quint.Base.Int.{eqb_ℤ_iff}
use fs_quint.Base.{pos, eqb_ℤ, select, &&-left, &&-right}
use fs_quint.Base.Text.{empty, splitlines, starts_with}
use fs_quint.Host.Value.{get_or_null, str, is_text}
use fs_quint.Claim.Policy.Checked.{is_text-str, load-IsLoaded}
use fs_quint.Claim.Routine.{blank, ancestor_answer, listed_paths}
use fs_quint.Claim.Routine.Evidence.{IsAncestor, IsChanged}
use fs_quint.Base.{List-cases}
use mathlib.Core.Bool.{false≢true}
use fs_quint.Base.{subst, sym}
use fs_quint.Host.Results.{value-injective}
use fs_quint.Base.{
  ◌≡◌, refl, ap, ◌∙◌, ◌⊎◌, inl, inr, Bool, true, false, not, List, [], ◌∷◌, arith, Bool-cases,
  if◌then◌else◌,
}
use fs_quint.Base.Text.{Text, codes, same, same_iff, member, lower}
use fs_quint.Host.{World, Env, value, pure}
use fs_quint.Host.Actions.{>>=-value}
use fs_quint.Host.Value.{Fields}
use fs_quint.Claim.Marker.{get, Marker, marker_fields, routine_development}
use fs_quint.Claim.Policy.{load_routine_policy}
use fs_quint.Claim.Routine.{
  Request, RoutineVerdict, is_admitted, or_blank, policy_list, missing_of, marker_value, HeadMatch,
  exact, push_parent, stale_head, names_previous, valid_base, parent_match, admit, routine_prefix,
  routine_is_ancestor, routine_changed_paths, head_match, check_operation, check_head, check_marker,
  one_marker, evaluate_routine,
}
use fs_quint.Claim.Routine.Evidence.{IsProved, Operation, Marked, Admission}

answer-IsAncestor :
    (env : Env) (p : Proc) (w : World)
    → (ancestor_answer env p w).result ≡ value true
    → (out : Text) × (err : Text) × (p ≡ exited (pos 0) out err)
unfolding ancestor_answer
answer-IsAncestor env not_started w h = absurd (ground (arith, h))
answer-IsAncestor env timed_out w h = absurd (ground (arith, h))
answer-IsAncestor env (exited n out err) w h =
    (out, err, ap (λ m. exited m out err) ((eqb_ℤ_iff n (pos 0)).0 (value-injective _ true h)))

listed-IsChanged :
    (env : Env) (p : Proc) (w : World) (paths : List Text)
    → (listed_paths env p w).result ≡ value paths
    → (out : Text) × (err : Text) × (p ≡ exited (pos 0) out err)
      × (paths ≡ select (λ line. not (empty line)) (splitlines out))
unfolding listed_paths
listed-IsChanged env not_started w paths h = absurd (ground (arith, h))
listed-IsChanged env timed_out w paths h = absurd (ground (arith, h))
listed-IsChanged env (exited n out err) w paths h = elim (Bool-cases (eqb_ℤ n (pos 0))) [
  | inl e ↦ (
    out,
    err,
    ap (λ m. exited m out err) ((eqb_ℤ_iff n (pos 0)).0 e),
    sym (value-injective _ paths (rw (e, listed_paths) at h)),
  )
  | inr e ↦ absurd (ground (arith, rw (e, listed_paths) at h))
]

routine_changed_paths-IsChanged :
    (env : Env) (base head : Text) (w : World) (paths : List Text)
    → (routine_changed_paths env base head w).result ≡ value paths
    → IsChanged env base head w paths
unfolding routine_changed_paths execute
routine_changed_paths-IsChanged env base head w paths h =
    let (out, err, printed, lines) = listed-IsChanged env _ _ paths h in
    record { out = out; err = err; printed = printed; lines = lines }

routine_is_ancestor-IsAncestor :
    (env : Env) (ancestor head : Text) (w : World)
    → (routine_is_ancestor env ancestor head w).result ≡ value true
    → IsAncestor env ancestor head w
unfolding routine_is_ancestor execute
routine_is_ancestor-IsAncestor env ancestor head w h = answer-IsAncestor env _ _ h

prefix-str :
    (r : Request) (policy : Fields)
    → routine_prefix r policy ≡ true
    → (get_or_null (codes "branchPrefix") policy ≡ str (codes "routine/"))
      × (starts_with r.head_ref (codes "routine/") ≡ true)
unfolding routine_prefix
prefix-str r policy h = (
  is_text-str _ _ (&&-left _ _ h),
  &&-right (is_text (codes "routine/") (get_or_null (codes "branchPrefix") policy)) _ h,
)

given :
    (m : Marker)
    → missing_of m ≡ []
    → (blank (get (codes "head") m.fields) ≡ false)
      × (blank (get (codes "operation") m.fields) ≡ false)
unfolding missing_of
given m h = ground arith

module _ (env : Env) (r : Request) where
  parent-IsProved :
      (head : Text) (w : World) (b : Bool)
      → names_previous head r.previous_head ≡ true
      → (routine_is_ancestor env (or_blank r.previous_head) r.head_sha w).result ≡ value b
      → (parent_match b ≡ stale_head) ⊎ IsProved env r head w (parent_match b)
  unfolding parent_match names_previous
  parent-IsProved head w false n e = inl refl
  parent-IsProved head w true n e = inr (
    ground arith,
    ground (arith, same_iff (lower head) (lower (or_blank r.previous_head))),
    routine_is_ancestor-IsAncestor env (or_blank r.previous_head) r.head_sha w e,
  )

  head_match-IsProved :
      (head : Text) (w : World) (how : HeadMatch)
      → (head_match env r head w).result ≡ value how
      → (how ≡ stale_head) ⊎ IsProved env r head w how
  unfolding head_match
  head_match-IsProved head w how h = elim (Bool-cases (same (lower head) (lower r.head_sha))) [
    | inl e ↦
        subst (λ x. (x ≡ stale_head) ⊎ IsProved env r head w x)
          (value-injective exact how (rw (e, head_match) at h))
          (inr ((same_iff (lower head) (lower r.head_sha)).0 e))
    | inr e ↦ elim (Bool-cases (names_previous head r.previous_head)) [
      | inr n ↦ inl (sym (value-injective stale_head how (rw (e, n, head_match) at h)))
      | inl n ↦
          let (b, asked, found) =
            >>=-value (routine_is_ancestor env (or_blank r.previous_head) r.head_sha)
              (λ b. pure (parent_match b)) w how (rw (e, n, head_match) at h) in
          subst (λ x. (x ≡ stale_head) ⊎ IsProved env r head w x)
            (value-injective (parent_match b) how found) (parent-IsProved head w b n asked)
    ]
  ]

  admit-Operation :
      (policy : Fields) (how : HeadMatch) (operation : Text) (w : World) (paths : List Text)
      → member operation (policy_list (codes "allowedOperations") policy) ≡ true
      → member operation (policy_list (codes "protectedOperations") policy) ≡ false
      → (routine_changed_paths env (lower (or_blank r.base_sha)) (lower r.head_sha) w).result
        ≡ value paths
      → is_admitted (admit how operation paths) ≡ true
      → Operation env r policy how operation w (admit how operation paths)
  unfolding admit is_admitted
  admit-Operation policy exact operation w [] a u e g = absurd (false≢true g)
  admit-Operation policy push_parent operation w [] a u e g = absurd (false≢true g)
  admit-Operation policy stale_head operation w [] a u e g = absurd (false≢true g)
  admit-Operation policy how operation w (p ∷ ps) a u e g = record {
    allowed = a;
    unprotected = u;
    first = p;
    others = ps;
    changed = routine_changed_paths-IsChanged env _ _ w (p ∷ ps) e;
    verdict = refl;
  }

  check_operation-Operation :
      (policy : Fields) (how : HeadMatch) (operation : Text) (w : World) (v : RoutineVerdict)
      → (check_operation env r policy how operation w).result ≡ value v
      → is_admitted v ≡ true
      → Operation env r policy how operation w v
  unfolding check_operation is_admitted
  check_operation-Operation policy how operation w v h g =
      elim (Bool-cases (member operation (policy_list (codes "protectedOperations") policy))) [
        | inl e ↦
            absurd
              (false≢true (ap is_admitted (value-injective _ v (rw (e, check_operation) at h)) ∙ g))
        | inr u ↦
            elim (Bool-cases (member operation (policy_list (codes "allowedOperations") policy))) [
              | inr e ↦ absurd (
                  false≢true
                    (ap is_admitted (value-injective _ v (rw (u, e, check_operation) at h)) ∙ g))
              | inl a ↦
                  let (paths, read, ends) =
                    >>=-value
                      (routine_changed_paths env (lower (or_blank r.base_sha)) (lower r.head_sha))
                      (λ paths. pure (admit how operation paths)) w v
                      (rw (u, a, check_operation) at h) in
                  let e = value-injective (admit how operation paths) v ends in
                  subst (Operation env r policy how operation w) e
                    (admit-Operation policy how operation w paths a u read (ap is_admitted e ∙ g))
            ]
      ]

  check_head-Operation :
      (policy : Fields) (m : Marker) (how : HeadMatch) (w : World) (v : RoutineVerdict)
      → (check_head env r policy m how w).result ≡ value v
      → is_admitted v ≡ true
      → ¬ (how ≡ stale_head) × Operation env r policy how (marker_value (codes "operation") m) w v
  unfolding check_head is_admitted
  check_head-Operation policy m exact w v h g =
      (λ e. ground (arith, e), check_operation-Operation policy exact _ w v h g)
  check_head-Operation policy m push_parent w v h g =
      (λ e. ground (arith, e), check_operation-Operation policy push_parent _ w v h g)
  check_head-Operation policy m stale_head w v h g =
      absurd (false≢true (ap is_admitted (value-injective _ v h) ∙ g))

  check_marker-Marked :
      (policy : Fields) (m : Marker) (w : World) (v : RoutineVerdict)
      → (check_marker env r policy m w).result ≡ value v
      → is_admitted v ≡ true
      → Marked env r policy m w v
  unfolding check_marker is_admitted
  check_marker-Marked policy m w v h g = elim (List-cases m.duplicates) [
    | inr (k, ks, d) ↦
        absurd (false≢true (ap is_admitted (value-injective _ v (rw (d, check_marker) at h)) ∙ g))
    | inl d ↦ elim (List-cases (missing_of m)) [
      | inr (f, fs, c) ↦
          absurd
            (false≢true (ap is_admitted (value-injective _ v (rw (d, c, check_marker) at h)) ∙ g))
      | inl c ↦
          let (how, matched, rest) =
            >>=-value (head_match env r (marker_value (codes "head") m)) (check_head env r policy m)
              w v (rw (d, c, check_marker) at h) in
          let (fresh, operation) = check_head-Operation policy m how _ v rest g in
          elim (head_match-IsProved (marker_value (codes "head") m) w how matched) [
            | inl e ↦ absurd (fresh e)
            | inr proof ↦ record {
              unambiguous = d;
              head_given = (given m c).0;
              operation_given = (given m c).1;
              how = how;
              head = proof;
              operation = operation;
            }
          ]
    ]
  ]

  one_marker-Marked :
      (policy : Fields) (ms : List Marker) (w : World) (v : RoutineVerdict)
      → (one_marker env r policy ms w).result ≡ value v
      → is_admitted v ≡ true
      → (m : Marker) × (ms ≡ m ∷ []) × Marked env r policy m w v
  unfolding one_marker is_admitted
  one_marker-Marked policy [] w v h g =
      absurd (false≢true (ap is_admitted (value-injective _ v h) ∙ g))
  one_marker-Marked policy (m ∷ []) w v h g = (m, refl, check_marker-Marked policy m w v h g)
  one_marker-Marked policy (m ∷ n ∷ ms) w v h g =
      absurd (false≢true (ap is_admitted (value-injective _ v h) ∙ g))

-- A routine pull request is admitted, provisionally or not, only if its base is a commit; the policy
-- was printed by `git show` at its revision, or read from its file without one, and says what a
-- policy must; the policy and the branch have the routine prefix; the body has one routine marker, of
-- which no field stands twice or is missing; the marker's head is the head of the pull request, or the
-- previous head, which `git` proved to be an ancestor of it; the marker's operation is allowed and not
-- protected; and `git diff` listed at least one changed path between the two commits.
pub evaluate_routine-Admission :
    (env : Env) (r : Request) (body : Text) (w : World) (v : RoutineVerdict)
    → (evaluate_routine env r body w).result ≡ value v
    → is_admitted v ≡ true
    → Admission env r body w v
unfolding evaluate_routine is_admitted
evaluate_routine-Admission env r body w v h g = elim (Bool-cases (valid_base r.base_sha)) [
  | inr e ↦ absurd (ground (arith, rw (e, evaluate_routine) at h))
  | inl base ↦
      let (policy, loaded, rest) =
        >>=-value (load_routine_policy env r.routine_policy r.routine_policy_ref)
          (λ policy.
            if not (routine_prefix r policy)
            then raise gate_error
            else one_marker env r policy (marker_fields routine_development body))
          w v (rw (base, evaluate_routine) at h) in
      elim (Bool-cases (routine_prefix r policy)) [
        | inr e ↦ absurd (ground (arith, rw e at rest))
        | inl branch ↦
            let (m, only, marked) = one_marker-Marked env r policy _ _ v (rw branch at rest) g in
            record {
              base = base;
              policy = policy;
              loaded = load-IsLoaded env r.routine_policy r.routine_policy_ref w policy loaded;
              prefix = (prefix-str r policy branch).0;
              branch = (prefix-str r policy branch).1;
              marker = m;
              only = only;
              marked = marked;
            }
      ]
]

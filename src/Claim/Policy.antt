-- ===== src/Claim/Policy.antt =====
-- check-claim-generation.py `load_routine_policy`: what a policy document must say.
pub mod Checked
pub mod Reading
use fs_quint.Base.{
  Bool, true, false, not, ◌&&◌, Option, none, some, List, [], ◌∷◌, all, map, if◌then◌else◌, pos,
  ◌++◌, eqb_ℤ,
}
use fs_quint.Base.Text.{Text, codes, same_set, empty}
use fs_quint.Host.{
  gate_error, crash, Result, value, raised, Proc, not_started, timed_out, exited, FileRead,
  os_error, undecodable, contents, Env, Exec, raise, lift, ◌>>=◌, execute,
}
use fs_quint.Host.Value.{
  Json, str, arr, obj, Fields, get, get_or_null, is_text, is_true, items, keys,
}

abbrev pub policy_schema : Text
policy_schema = codes "fsgg.routine-development-policy/v1"

abbrev pub not_required : List Text
not_required =
    codes "issue"
    ∷ codes "claim"
    ∷ codes "sdd-artifacts"
    ∷ codes "phase-lifecycle-ledger"
    ∷ codes "independent-critic"
    ∷ codes "feedback-report"
    ∷ codes "receipt-cycle"
    ∷ codes "metadata-done"
    ∷ codes "projection-pr"
    ∷ []

abbrev pub heavy_non_triggers : List Text
heavy_non_triggers =
    codes "strict-label"
    ∷ codes "gs2-registration"
    ∷ codes "protected-path"
    ∷ codes "policy-change"
    ∷ codes "modeled-work"
    ∷ codes "protected-operation"
    ∷ codes "existing-strict-state"
    ∷ []

-- A member of `set(value)`: a text, another value that can be hashed, or a `TypeError`.
hashable : Json → Result (Option Text)
hashable (str s) = value (some s)
hashable (arr vs) = raised crash
hashable (obj fs) = raised crash
hashable _ = value none

hashables : List Json → Result (List (Option Text))
unfolding hashable
hashables [] = value []
hashables (v ∷ vs) = elim (hashable v) [
  | raised e ↦ raised e
  | value m ↦ elim (hashables vs) [ raised e ↦ raised e | value ms ↦ value (m ∷ ms) ]
]

-- `set(policy.get(key, []))`
as_set : Option Json → Result (List (Option Text))
unfolding hashables items keys
as_set none = value []
as_set (some (arr vs)) = hashables (items vs)
as_set (some (str s)) = value (map (λ c. some (c ∷ [])) s)
as_set (some (obj fs)) = value (map some (keys fs))
as_set (some _) = raised crash

texts : List (Option Text) → Option (List Text)
texts [] = some []
texts (none ∷ ms) = none
texts (some s ∷ ms) = elim (texts ms) [ none ↦ none | some ss ↦ some (s ∷ ss) ]

equal_set : List Text → List (Option Text) → Bool
unfolding texts same_set
equal_set wanted ms = elim (texts ms) [ none ↦ false | some ss ↦ same_set ss wanted ]

pub set_is : Option Json → List Text → Result Bool
unfolding as_set equal_set
set_is v wanted = elim (as_set v) [ raised e ↦ raised e | value ms ↦ value (equal_set wanted ms) ]

-- The dictionary that `heavyProcessSelection` must be.
heavy_selection : Json → Bool
unfolding is_text is_true get_or_null keys same_set
heavy_selection (obj fs) =
    same_set (keys fs)
      (codes "trigger" ∷ codes "namedScopeRequired" ∷ codes "absenceOrAmbiguity" ∷ [])
    && is_text (codes "recorded-explicit-human-instruction") (get_or_null (codes "trigger") fs)
    && is_true (get_or_null (codes "namedScopeRequired") fs)
    && is_text (codes "routine") (get_or_null (codes "absenceOrAmbiguity") fs)
heavy_selection _ = false

filled_text : Json → Bool
filled_text (str (c ∷ s)) = true
filled_text _ = false

-- `isinstance(values, list) and values and all(...)`
pub text_list : Json → Bool
unfolding items filled_text
text_list (arr vs) = let xs = items vs in not (empty xs) && all filled_text xs
text_list _ = false

-- The tests behind the two sets, in their order; all of them raise `GateError`.
policy_rules : Fields → Bool
unfolding is_text get_or_null text_list
policy_rules fs =
    is_text (codes "technical-checks-and-operation-authority-remain-independent-and-fail-closed")
      (get_or_null (codes "safeguardRule") fs)
    && is_text (codes "affected-effect-remains-pending-until-authorized")
        (get_or_null (codes "protectedOperationDisposition") fs)
    && is_text (codes "evidence-retained-not-a-route-selector")
        (get_or_null (codes "legacyAuthority") fs)
    && text_list (get_or_null (codes "allowedOperations") fs)
    && text_list (get_or_null (codes "protectedOperations") fs)
    && text_list (get_or_null (codes "sensitivePaths") fs)
    && text_list (get_or_null (codes "requiredChecks") fs)

-- The tests in front of the sets.
policy_head : Fields → Bool
unfolding is_text get_or_null heavy_selection
policy_head fs =
    is_text policy_schema (get_or_null (codes "schema") fs)
    && is_text (codes "active") (get_or_null (codes "status") fs)
    && is_text (codes "routine") (get_or_null (codes "defaultRoute") fs)
    && heavy_selection (get_or_null (codes "heavyProcessSelection") fs)

require : Bool → Fields → Result Fields
require true fs = value fs
require false fs = raised gate_error

require_set : Result Bool → Result Fields → Result Fields
require_set (raised e) rest = raised e
require_set (value false) rest = raised gate_error
require_set (value true) rest = rest

unfoldable pub check_policy : Json → Result Fields
unfolding policy_head policy_rules require require_set set_is get
check_policy (obj fs) =
    if policy_head fs
    then require_set (set_is (get (codes "heavyProcessNonTriggers") fs) heavy_non_triggers) (
        require_set (set_is (get (codes "notRequired") fs) not_required)
          (require (policy_rules fs) fs))
    else raised gate_error
check_policy _ = raised gate_error

parsed : Env → Text → Result Fields
unfolding check_policy
parsed env source = elim (env.loads source) [ none ↦ raised gate_error | some v ↦ check_policy v ]

module _ (env : Env) where
  -- `git show REVISION:PATH`, or the file when no revision is given.
  read_shown : Proc → Exec Fields
  unfolding parsed
  read_shown not_started = raise gate_error
  read_shown timed_out = raise crash
  read_shown (exited status out err) =
      if eqb_ℤ status (pos 0) then lift (parsed env out) else raise gate_error

  read_revision : Text → Text → Exec Fields
  unfolding execute read_shown
  read_revision path revision = do
    p ← execute env (codes "git" ∷ codes "show" ∷ (revision ++ (codes ":" ++ path)) ∷ []) none
    read_shown p

  read_contents : FileRead → Exec Fields
  unfolding parsed
  read_contents os_error = raise gate_error
  read_contents undecodable = raise crash
  read_contents (contents source) = lift (parsed env source)

  read_path : Text → Exec Fields
  unfolding read_contents
  read_path path w = read_contents (env.read_file w path) w

  unfoldable pub load_routine_policy : Text → Option Text → Exec Fields
  unfolding read_revision read_path
  load_routine_policy path none = read_path path
  load_routine_policy path (some []) = read_path path
  load_routine_policy path (some (c ∷ r)) = read_revision path (c ∷ r)

-- ===== src/Claim/Policy/Checked.antt =====
-- What a policy document that was accepted says, and where it was read.
use fs_quint.Base.{
  ◌≡◌, refl, inl, inr, arith, ap, subst, Bool, true, false, Bool-cases, Option-cases, Option, none,
  some, [], ◌∷◌, ◌++◌, pos, eqb_ℤ, ◌∙◌, ◌&&◌, four,
}
use fs_quint.Base.Int.{eqb_ℤ_iff}
use fs_quint.Host.{ran}
use fs_quint.Base.Text.{Text, codes, same_iff}
use fs_quint.Host.{
  World, Env, Proc, FileRead, os_error, undecodable, contents, not_started, timed_out, exited,
  Result, value, raised, execute,
}
use fs_quint.Host.Results.{value-injective}
use fs_quint.Host.Value.{
  Json, null, bool, int, float, str, arr, obj, Fields, get, get_or_null, is_text, is_true,
}
use fs_quint.Claim.Policy.{
  policy_rules, policy_head, heavy_selection, text_list, set_is, require, require_set, check_policy,
  parsed, read_shown, read_revision, read_contents, read_path, load_routine_policy,
  heavy_non_triggers, not_required,
}

-- Heavy processes are chosen by an explicit human instruction of a named scope, and by nothing else.
pub record IsSelection (v : Json) : Type 0 where
  pub fields : Fields
  pub dictionary : v ≡ obj fields
  pub trigger :
      get_or_null (codes "trigger") fields ≡ str (codes "recorded-explicit-human-instruction")
  pub scoped : is_true (get_or_null (codes "namedScopeRequired") fields) ≡ true
  pub otherwise : get_or_null (codes "absenceOrAmbiguity") fields ≡ str (codes "routine")

pub record IsChecked (fs : Fields) : Type 0 where
  pub schema : get_or_null (codes "schema") fs ≡ str (codes "fsgg.routine-development-policy/v1")
  pub status : get_or_null (codes "status") fs ≡ str (codes "active")
  pub route : get_or_null (codes "defaultRoute") fs ≡ str (codes "routine")
  pub selection : IsSelection (get_or_null (codes "heavyProcessSelection") fs)
  pub triggers :
      set_is (get (codes "heavyProcessNonTriggers") fs) (
        codes "strict-label"
        ∷ codes "gs2-registration"
        ∷ codes "protected-path"
        ∷ codes "policy-change"
        ∷ codes "modeled-work"
        ∷ codes "protected-operation"
        ∷ codes "existing-strict-state"
        ∷ [])
      ≡ value true
  pub not_required :
      set_is (get (codes "notRequired") fs) (
        codes "issue"
        ∷ codes "claim"
        ∷ codes "sdd-artifacts"
        ∷ codes "phase-lifecycle-ledger"
        ∷ codes "independent-critic"
        ∷ codes "feedback-report"
        ∷ codes "receipt-cycle"
        ∷ codes "metadata-done"
        ∷ codes "projection-pr"
        ∷ [])
      ≡ value true
  pub safeguard :
      get_or_null (codes "safeguardRule") fs
      ≡ str (codes "technical-checks-and-operation-authority-remain-independent-and-fail-closed")
  pub disposition :
      get_or_null (codes "protectedOperationDisposition") fs
      ≡ str (codes "affected-effect-remains-pending-until-authorized")
  pub legacy :
      get_or_null (codes "legacyAuthority") fs
      ≡ str (codes "evidence-retained-not-a-route-selector")
  pub allowed : text_list (get_or_null (codes "allowedOperations") fs) ≡ true
  pub protected : text_list (get_or_null (codes "protectedOperations") fs) ≡ true
  pub sensitive : text_list (get_or_null (codes "sensitivePaths") fs) ≡ true
  pub checks : text_list (get_or_null (codes "requiredChecks") fs) ≡ true

pub is_text-str : (t : Text) (v : Json) → is_text t v ≡ true → v ≡ str t
unfolding is_text
is_text-str t (str s) h = ap str ((same_iff s t).0 h)
is_text-str t null h = absurd (ground (arith, h))
is_text-str t (bool b) h = absurd (ground (arith, h))
is_text-str t (int n) h = absurd (ground (arith, h))
is_text-str t (float a b c) h = absurd (ground (arith, h))
is_text-str t (arr vs) h = absurd (ground (arith, h))
is_text-str t (obj fs) h = absurd (ground (arith, h))

seven :
    (a b c d e f g : Bool)
    → (a && b && c && d && e && f && g) ≡ true
    → (a ≡ true) × (b ≡ true) × (c ≡ true) × (d ≡ true) × (e ≡ true) × (f ≡ true) × (g ≡ true)
seven a b c d e f g h = ground arith

heavy_selection-IsSelection : (v : Json) → heavy_selection v ≡ true → IsSelection v
unfolding heavy_selection
heavy_selection-IsSelection (obj fs) h = record {
  fields = fs;
  dictionary = refl;
  trigger = is_text-str _ _ (ground (arith, h));
  scoped = ground (arith, h);
  otherwise = is_text-str _ _ (ground (arith, h));
}
heavy_selection-IsSelection (str t) h = absurd (ground (arith, h))
heavy_selection-IsSelection null h = absurd (ground (arith, h))
heavy_selection-IsSelection (bool b) h = absurd (ground (arith, h))
heavy_selection-IsSelection (int n) h = absurd (ground (arith, h))
heavy_selection-IsSelection (float a b c) h = absurd (ground (arith, h))
heavy_selection-IsSelection (arr vs) h = absurd (ground (arith, h))

require_set-value :
    (b : Result Bool) (rest : Result Fields) (fs : Fields)
    → require_set b rest ≡ value fs
    → (b ≡ value true) × (rest ≡ value fs)
unfolding require_set
require_set-value (raised e) rest fs h = absurd (ground (arith, h))
require_set-value (value false) rest fs h = absurd (ground (arith, h))
require_set-value (value true) rest fs h = (refl, h)

require-value : (b : Bool) (fs gs : Fields) → require b fs ≡ value gs → (b ≡ true) × (fs ≡ gs)
unfolding require
require-value true fs gs h = (refl, value-injective fs gs h)
require-value false fs gs h = absurd (ground (arith, h))

-- The tests in front of the sets, and those behind them.
head_parts :
    (fs : Fields)
    → policy_head fs ≡ true
    → (get_or_null (codes "schema") fs ≡ str (codes "fsgg.routine-development-policy/v1"))
      × (get_or_null (codes "status") fs ≡ str (codes "active"))
      × (get_or_null (codes "defaultRoute") fs ≡ str (codes "routine"))
      × IsSelection (get_or_null (codes "heavyProcessSelection") fs)
unfolding policy_head
head_parts fs h =
    let (a, b, c, d) = four _ _ _ _ h in
    (
      is_text-str _ _ a,
      is_text-str _ _ b,
      is_text-str _ _ c,
      heavy_selection-IsSelection (get_or_null (codes "heavyProcessSelection") fs) d,
    )

rules-IsChecked :
    (fs : Fields)
    → policy_head fs ≡ true
    → set_is (get (codes "heavyProcessNonTriggers") fs) heavy_non_triggers ≡ value true
    → set_is (get (codes "notRequired") fs) not_required ≡ value true
    → policy_rules fs ≡ true
    → IsChecked fs
unfolding policy_rules
rules-IsChecked fs h t n r =
    let (schema, status, route, selection) = head_parts fs h in
    let (a, b, c, d, e, f, g) = seven _ _ _ _ _ _ _ r in
    record {
      schema = schema;
      status = status;
      route = route;
      selection = selection;
      triggers = t;
      not_required = n;
      safeguard = is_text-str _ _ a;
      disposition = is_text-str _ _ b;
      legacy = is_text-str _ _ c;
      allowed = d;
      protected = e;
      sensitive = f;
      checks = g;
    }

check_policy-IsChecked :
    (v : Json) (fs : Fields) → check_policy v ≡ value fs → (v ≡ obj fs) × IsChecked fs
unfolding check_policy
check_policy-IsChecked (obj gs) fs h = elim (Bool-cases (policy_head gs)) [
  | inr e ↦ absurd (ground (arith, rw (e, check_policy) at h))
  | inl e ↦
      let (t, h1) = require_set-value _ _ fs (rw (e, check_policy) at h) in
      let (n, h2) = require_set-value _ _ fs h1 in
      let (r, q) = require-value (policy_rules gs) gs fs h2 in
      (ap obj q, subst IsChecked q (rules-IsChecked gs e t n r))
]
check_policy-IsChecked (str t) fs h = absurd (ground (arith, h))
check_policy-IsChecked null fs h = absurd (ground (arith, h))
check_policy-IsChecked (bool b) fs h = absurd (ground (arith, h))
check_policy-IsChecked (int n) fs h = absurd (ground (arith, h))
check_policy-IsChecked (float a b c) fs h = absurd (ground (arith, h))
check_policy-IsChecked (arr vs) fs h = absurd (ground (arith, h))

-- The text of the policy: what `git show` prints of the file at the revision, or the file itself
-- when no revision is given.
abbrev pub IsSource : Env → Text → Option Text → World → Text → Type 0
IsSource env path none w source = env.read_file w path ≡ contents source
IsSource env path (some []) w source = env.read_file w path ≡ contents source
IsSource env path (some (c ∷ r)) w source =
    (err : Text) × (env.proc w (codes "git" ∷ codes "show" ∷ ((c ∷ r) ++ (codes ":" ++ path)) ∷ [])
        none
      ≡ exited (pos 0) source err)

-- A policy that was read there, and says what it must.
pub record IsLoaded (env : Env) (path : Text) (revision : Option Text) (w : World) (fs : Fields)
    : Type 0 where
  pub source : Text
  pub printed : IsSource env path revision w source
  pub decoded : env.loads source ≡ some (obj fs)
  pub checked : IsChecked fs

parsed-IsChecked :
    (env : Env) (source : Text) (fs : Fields)
    → parsed env source ≡ value fs
    → (env.loads source ≡ some (obj fs)) × IsChecked fs
unfolding parsed
parsed-IsChecked env source fs h = elim (Option-cases (env.loads source)) [
  | inl e ↦ absurd (ground (arith, rw (e, parsed) at h))
  | inr (v, e) ↦
      let (q, checked) = check_policy-IsChecked v fs (rw (e, parsed) at h) in
      (e ∙ ap some q, checked)
]

contents-IsLoaded :
    (env : Env) (r : FileRead) (w : World) (fs : Fields)
    → (read_contents env r w).result ≡ value fs
    → (source : Text) × (r ≡ contents source) × (parsed env source ≡ value fs)
unfolding read_contents
contents-IsLoaded env os_error w fs h = absurd (ground (arith, h))
contents-IsLoaded env undecodable w fs h = absurd (ground (arith, h))
contents-IsLoaded env (contents source) w fs h = (source, refl, h)

shown-IsLoaded :
    (env : Env) (p : Proc) (w : World) (fs : Fields)
    → (read_shown env p w).result ≡ value fs
    → (source : Text) × (err : Text) × (p ≡ exited (pos 0) source err)
      × (parsed env source ≡ value fs)
unfolding read_shown
shown-IsLoaded env not_started w fs h = absurd (ground (arith, h))
shown-IsLoaded env timed_out w fs h = absurd (ground (arith, h))
shown-IsLoaded env (exited n out err) w fs h = elim (Bool-cases (eqb_ℤ n (pos 0))) [
  | inl e ↦
      (out, err, ap (λ m. exited m out err) ((eqb_ℤ_iff n (pos 0)).0 e), rw (e, read_shown) at h)
  | inr e ↦ absurd (ground (arith, rw (e, read_shown) at h))
]

-- What was loaded.
pub load-IsLoaded :
    (env : Env) (path : Text) (revision : Option Text) (w : World) (fs : Fields)
    → (load_routine_policy env path revision w).result ≡ value fs
    → IsLoaded env path revision w fs
unfolding load_routine_policy read_path read_revision execute
load-IsLoaded env path none w fs h =
    let (source, e, k) = contents-IsLoaded env (env.read_file w path) w fs h in
    let (decoded, checked) = parsed-IsChecked env source fs k in
    record { source = source; printed = e; decoded = decoded; checked = checked }
load-IsLoaded env path (some []) w fs h =
    let (source, e, k) = contents-IsLoaded env (env.read_file w path) w fs h in
    let (decoded, checked) = parsed-IsChecked env source fs k in
    record { source = source; printed = e; decoded = decoded; checked = checked }
load-IsLoaded env path (some (c ∷ r)) w fs h =
    let argv = codes "git" ∷ codes "show" ∷ ((c ∷ r) ++ (codes ":" ++ path)) ∷ [] in
    let (source, err, e, k) = shown-IsLoaded env (env.proc w argv none) (ran argv none ∷ w) fs h in
    let (decoded, checked) = parsed-IsChecked env source fs k in
    record { source = source; printed = (err, e); decoded = decoded; checked = checked }

-- ===== src/Claim/Verdict.antt =====
-- check-claim-generation.py `classify`, `evaluate`, `item_args` and `deadline_lines`. A finding
-- carries what its message prints; the prose around it is left out.
pub mod Expiry
pub mod Forgery
pub mod Items
pub mod Passes
pub mod Reading
use fs_quint.Base.{
  ℕ, ◌+◌, ◌-◌, ◌/◌, ℤ, pos, negsuc, pos_part, neg_part, scale, Bool, true, false, not, Option, none,
  some, List, [], ◌∷◌, ◌++◌, length, select, if◌then◌else◌,
}
use fs_quint.Base.Text.{Text, codes, same, lower}
use fs_quint.Base.Text.Decimal.{int_of, show_int}
use fs_quint.Host.{Exception, crash, Result, value, raised, Datetime, Env, Exec, pure, ◌>>=◌}
use fs_quint.Claim.Lease.{seconds_between}
use fs_quint.Claim.Marker.{Dict, get, find_authorizations}
use fs_quint.Claim.Shape.{is_gen, is_item, item_branch}
use fs_quint.Claim.Comments.{Claimant}
use fs_quint.Claim.State.{ClaimState, held, released, generation, clock, read_claim_state}

-- The namespace that `item_args` builds.
pub record Args : Type 0 where
  pub repo : Text
  pub head_ref : Text
  pub head_sha : Text
  pub item_number : ℤ
  pub lease_minutes : ℤ
  pub lease_from_cli : Bool
  pub now : Option Datetime
  pub expected_item : Text

-- The options that the gate and its sweep share.
pub record Options : Type 0 where
  pub repo : Text
  pub lease_minutes : ℤ
  pub lease_from_cli : Bool
  pub now : Option Datetime

pub data Kind : Type 0 where
  missing stale expired mismatched : Kind

pub data Finding : Type 0 where
  no_authorization no_claim no_such_item : Finding
  many_authorizations : ℕ → Finding
  missing_fields : List Text → Finding
  unsupported_version bad_generation moved_head bad_item other_item other_generation :
      Text → Finding
  lapsed_lease : Claimant → ℕ → Finding

unfoldable pub kind : Finding → Kind
kind no_authorization = Kind.missing
kind (many_authorizations n) = Kind.missing
kind (missing_fields names) = Kind.missing
kind (unsupported_version v) = Kind.missing
kind (bad_generation gen) = Kind.mismatched
kind (moved_head head) = Kind.mismatched
kind (bad_item item) = Kind.mismatched
kind (other_item item) = Kind.mismatched
kind no_claim = Kind.mismatched
kind no_such_item = Kind.mismatched
kind (lapsed_lease c over) = Kind.expired
kind (other_generation live) = Kind.stale

abbrev pub required_fields : List Text
required_fields = codes "v" ∷ codes "item" ∷ codes "gen" ∷ codes "head" ∷ []

abbrev pub supported_version : Text
supported_version = codes "1"

abbrev absent : Option Text → Bool
absent none = true
absent (some v) = false

-- `fields[key]`, once the key is known to be there.
abbrev or_empty : Option Text → Text
or_empty none = []
or_empty (some v) = v

unfoldable pub field : Text → Dict → Text
unfolding get
field k d = or_empty (get k d)

-- The part of `classify` that reads the body alone: a finding, or the generation it names.
pub data Checked : Type 0 where
  refused : Finding → Checked
  authorizes : Text → Checked

check_values : Args → Dict → Checked
unfolding field
check_values a d =
    if not (same (field (codes "v") d) supported_version)
    then refused (unsupported_version (field (codes "v") d))
    else if not (is_gen (field (codes "gen") d))
    then refused (bad_generation (field (codes "gen") d))
    else if not (same (lower (field (codes "head") d)) (lower a.head_sha))
    then refused (moved_head (field (codes "head") d))
    else if not (is_item (field (codes "item") d))
    then refused (bad_item (field (codes "item") d))
    else if not (same (field (codes "item") d) a.expected_item)
    then refused (other_item (field (codes "item") d))
    else authorizes (field (codes "gen") d)

check_fields : Args → Dict → Checked
unfolding check_values
check_fields a d = elim (select (λ k. absent (get k d)) required_fields) [
  | [] ↦ check_values a d
  | k ∷ ks ↦ refused (missing_fields (k ∷ ks))
]

unfoldable pub check_markers : Args → List Dict → Checked
unfolding check_fields
check_markers a [] = refused no_authorization
check_markers a (d ∷ []) = check_fields a d
check_markers a (d ∷ e ∷ ds) = refused (many_authorizations (length (d ∷ e ∷ ds)))

-- `max(0, c.age_seconds - c.lease * 60) // 60`
overdue : Claimant → ℕ
overdue c =
    let limit = scale c.lease.minutes 60 in
    (pos_part c.age_seconds + neg_part limit - (neg_part c.age_seconds + pos_part limit)) / 60

-- The part behind the read: the generation that the body names against the claims on the item.
unfoldable pub grade : Text → ClaimState → Option Finding
unfolding generation overdue
grade gen released = some no_claim
grade gen (ClaimState.expired c) = some (lapsed_lease c (overdue c))
grade gen (held c) =
    if same (generation (held c)) gen then none else some (other_generation (generation (held c)))

pub record Verdict : Type 0 where
  pub finding : Option Finding
  pub state : Option ClaimState

module _ (env : Env) where
  unfoldable pub judged : Args → Checked → Exec Verdict
  judged a (refused f) = pure (record { finding = some f; state = none })
  judged a (authorizes gen) = do
    s ← read_claim_state env a.repo a.item_number a.lease_minutes a.lease_from_cli a.now
    pure (record { finding = grade gen s; state = some s })

  unfoldable pub classify : Args → Text → Exec Verdict
  classify a body = judged a (check_markers a (find_authorizations body))

  -- The handler of `Missing`; all other exceptions go on.
  absent_item : Result Verdict → Result Verdict
  absent_item (raised Exception.missing) =
      value (record { finding = some no_such_item; state = none })
  absent_item r = r

  unfoldable pub evaluate : Args → Text → Exec Verdict
  unfolding classify absent_item
  evaluate a body w =
      let done = classify a body w in
      record { result = absent_item done.result; world = done.world }

abbrev pub args_for : Options → Text → Text → ℤ → Args
args_for o head_ref head_sha n = record {
  repo = o.repo;
  head_ref = head_ref;
  head_sha = head_sha;
  item_number = n;
  lease_minutes = o.lease_minutes;
  lease_from_cli = o.lease_from_cli;
  now = o.now;
  expected_item = o.repo ++ (codes "#" ++ show_int n);
}

-- The item that a branch delivers; `none` if the branch fences nothing. Python's `int` refuses a
-- number of more than 4300 digits.
numbered_args : Options → Text → Text → Option ℤ → Result (Option Args)
numbered_args o head_ref head_sha none = raised crash
numbered_args o head_ref head_sha (some n) = value (some (args_for o head_ref head_sha n))

unfoldable pub item_args : Options → Text → Text → Result (Option Args)
unfolding numbered_args
item_args o head_ref head_sha = elim (item_branch head_ref) [
  | none ↦ value none
  | some digits ↦ numbered_args o head_ref head_sha (int_of digits)
]

-- The lines of a pass: no deadline, or its instant, the minutes left (rounded down) and the winner.
pub data Deadline : Type 0 where
  unknown : Deadline
  bounded : Datetime → ℤ → Claimant → Deadline

minutes_left : ℤ → ℤ
minutes_left (pos n) = pos (n / 60)
minutes_left (negsuc n) = negsuc (n / 60)

deadline_of : Env → Option Datetime → Claimant → Option Datetime → Exec Deadline
deadline_of env now c none = pure unknown
deadline_of env now c (some e) = do
  at ← clock env now
  pure (bounded e (minutes_left (seconds_between at e)) c)

unfoldable pub deadline_lines : Env → Args → Option ClaimState → Exec Deadline
unfolding deadline_of minutes_left clock seconds_between
deadline_lines env a (some (held c)) = deadline_of env a.now c c.expires_at
deadline_lines env a _ = pure unknown

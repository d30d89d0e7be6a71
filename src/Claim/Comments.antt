-- ===== src/Claim/Comments.antt =====
-- check-claim-generation.py `read_claim_state`, the loop over the comments of an item: which of
-- them are claims, under which lease, and which have lapsed.
pub mod Aging
pub mod Again
pub mod Usable
use fs_quint.Base.{ℤ, pos, negsuc, Bool, not, ◌&&◌, Option, none, some, List, [], ◌∷◌, ltb_ℤ, scale}
use fs_quint.Base.Text.{Text, codes, strip, splitlines}
use fs_quint.Host.{gate_error, crash, Result, value, raised, Datetime, Env}
use fs_quint.Host.Results.{◌>>=◌}
use fs_quint.Host.Value.{Json, obj, Fields, Number, as_number, as_text, get_or_null}
use fs_quint.Claim.Lease.{Lease, too_large, marker_lease, expiry_of, parse_instant, seconds_between}
use fs_quint.Claim.Marker.{Dict, get, fields_of, claim_marker}

-- `Claimant`
pub record Claimant : Type 0 where
  pub id : Number
  pub worker : Option Text
  pub lease : Lease
  pub expires_at : Option Datetime
  pub age_seconds : ℤ

-- The JSON values on the lines of an answer; blank lines and lines that are no JSON are passed over.
json_lines : Env → List Text → List Json
unfolding strip
json_lines env [] = []
json_lines env (line ∷ rest) = elim (strip line) [
  | [] ↦ json_lines env rest
  | c ∷ s ↦ elim (env.loads (c ∷ s)) [
    | none ↦ json_lines env rest
    | some v ↦ v ∷ json_lines env rest
  ]
]

unfoldable pub decoded : Env → Text → List Json
unfolding json_lines splitlines
decoded env raw = json_lines env (splitlines raw)

-- The lease in use, the expiry and the age of a claim.
pub record Timing : Type 0 where
  pub lease : Lease
  pub expires_at : Option Datetime
  pub age_seconds : ℤ

abbrev untimed : Lease → Timing
untimed l = record { lease = l; expires_at = none; age_seconds = negsuc 0 }

-- A lease that yields no expiry gives way to the fallback.
unfoldable pub fallback_timing : Datetime → ℤ → ℤ → Result Timing
fallback_timing at fallback age = elim (expiry_of at fallback) [
  | none ↦ raised gate_error
  | some e ↦ value (record {
    lease = record { minutes = fallback; source = too_large };
    expires_at = some e;
    age_seconds = age;
  })
]

unfoldable pub timed : Datetime → Datetime → Lease → ℤ → Result Timing
timed now at l fallback = elim (expiry_of at l.minutes) [
  | none ↦ fallback_timing at fallback (seconds_between at now)
  | some e ↦ value (record { lease = l; expires_at = some e; age_seconds = seconds_between at now })
]

unfoldable pub timing : Env → Datetime → Json → Lease → ℤ → Result Timing
timing env now updated_at l fallback = elim (as_text updated_at) [
  | none ↦ value (untimed l)
  | some raw ↦ elim (parse_instant env raw) [
    | raised e ↦ value (untimed l)
    | value at ↦ timed now at l fallback
  ]
]

-- Strictly older than its lease; an unreadable age is not.
unfoldable pub has_lapsed : Claimant → Bool
has_lapsed c = not (ltb_ℤ c.age_seconds (pos 0)) && ltb_ℤ (scale c.lease.minutes 60) c.age_seconds

unfoldable pub claimant : Number → Dict → Timing → Claimant
claimant cid fields t = record {
  id = cid;
  worker = get (codes "worker") fields;
  lease = t.lease;
  expires_at = t.expires_at;
  age_seconds = t.age_seconds;
}

-- What the gate was asked: its clock, its own lease, and whether that was given as an option.
pub record Asked : Type 0 where
  pub now : Datetime
  pub fallback : ℤ
  pub cli_override : Bool

-- A claim marker with its id.
unfoldable pub read_claim : Env → Asked → Fields → Number → Text → Result Claimant
read_claim env a fs cid marker =
    let fields = fields_of marker in
    let l = marker_lease (get (codes "lease") fields) a.fallback a.cli_override in
    do
      t ← timing env a.now (get_or_null (codes "updated_at") fs) l a.fallback
      value (claimant cid fields t)

-- One comment: `none` if it is no claim that can be ordered.
unfoldable pub read_object : Env → Asked → Fields → Result (Option Claimant)
read_object env a fs = elim (as_text (get_or_null (codes "body") fs)) [
  | none ↦ value none
  | some body ↦ elim (claim_marker body) [
    | none ↦ value none
    | some marker ↦ elim (as_number (get_or_null (codes "id") fs)) [
      | none ↦ value none
      | some cid ↦ (do c ← read_claim env a fs cid marker; value (some c))
    ]
  ]
]

-- A value with no `get` method is an `AttributeError`.
unfoldable pub read_comment : Env → Asked → Json → Result (Option Claimant)
read_comment env a (obj fs) = read_object env a fs
read_comment env a _ = raised crash

unfoldable pub keep : Option Claimant → List Claimant → List Claimant
keep none cs = cs
keep (some c) cs = c ∷ cs

-- The claims of an item in the order of its comments.
unfoldable pub read_claims : Env → Asked → List Json → Result (List Claimant)
read_claims env a [] = value []
read_claims env a (v ∷ vs) = do
  c ← read_comment env a v
  cs ← read_claims env a vs
  value (keep c cs)

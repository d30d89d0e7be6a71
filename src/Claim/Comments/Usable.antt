-- ===== src/Claim/Comments/Usable.antt =====
-- Every claim that is read can be used: its lease is positive, and a lapsed one has an expiry.
use fs_quint.Base.{
  ◌≡◌, ◌≢◌, subst, ℤ, pos, negsuc, ◌<ℤ◌, Bool, true, false, Option, none, some, List, [], ◌∷◌, All,
  inl, inr, arith, Option-cases,
}
use fs_quint.Base.Text.{Text, codes}
use fs_quint.Base.Text.Decimal.{int_of}
use fs_quint.Host.{Datetime, Env, value}
use fs_quint.Host.Results.{Result-cases, value-injective}
use fs_quint.Host.Value.{Json, obj, Fields, Number, as_number, as_text, get_or_null}
use fs_quint.Claim.Lease.{Lease, declared_lease, marker_lease, expiry_of, parse_instant}
use fs_quint.Claim.Marker.{get, fields_of, claim_marker}
use fs_quint.Claim.Comments.{
  Claimant, Timing, Asked, fallback_timing, timed, timing, claimant, has_lapsed, read_claim,
  read_object, read_comment, keep, read_claims,
}

-- The lease that a marker gives is at least a minute if the fallback is.
marker_lease-positive :
    (raw : Option Text) (fallback : ℤ) (cli : Bool)
    → pos 0 <ℤ fallback
    → pos 0 <ℤ (marker_lease raw fallback cli).minutes
unfolding marker_lease declared_lease
marker_lease-positive raw fallback true h = h
marker_lease-positive none fallback false h = h
marker_lease-positive (some raw) fallback false h = elim (Option-cases (int_of raw)) [
  | inl e ↦ ground arith
  | inr (n, e) ↦ ground arith
]

abbrev IsTimely : Timing → Type 0
IsTimely t = (pos 0 <ℤ t.lease.minutes) × (t.expires_at ≡ none → t.age_seconds ≡ negsuc 0)

timed-IsTimely :
    (now at : Datetime) (l : Lease) (fallback : ℤ) (t : Timing)
    → pos 0 <ℤ l.minutes
    → pos 0 <ℤ fallback
    → timed now at l fallback ≡ value t
    → IsTimely t
unfolding timed fallback_timing
timed-IsTimely now at l fallback t p q h = elim (Option-cases (expiry_of at l.minutes)) [
  | inr (e, x) ↦ ground arith
  | inl x ↦ elim (Option-cases (expiry_of at fallback)) [
    | inr (e, y) ↦ ground arith
    | inl y ↦ absurd (ground arith)
  ]
]

timing-IsTimely :
    (env : Env) (now : Datetime) (updated_at : Json) (l : Lease) (fallback : ℤ) (t : Timing)
    → pos 0 <ℤ l.minutes
    → pos 0 <ℤ fallback
    → timing env now updated_at l fallback ≡ value t
    → IsTimely t
unfolding timing
timing-IsTimely env now updated_at l fallback t p q h = elim (Option-cases (as_text updated_at)) [
  | inl e ↦ ground arith
  | inr (raw, e) ↦ elim (Result-cases (parse_instant env raw)) [
    | inr (x, r) ↦ ground arith
    | inl (at, r) ↦ timed-IsTimely now at l fallback t p q (ground arith)
  ]
]

-- The lease is at least a minute, and a claim that has lapsed says when.
abbrev pub IsUsable : Claimant → Type 0
IsUsable c = (pos 0 <ℤ c.lease.minutes) × (has_lapsed c ≡ true → c.expires_at ≢ none)

claimant-IsUsable :
    (c : Claimant)
    → pos 0 <ℤ c.lease.minutes
    → (c.expires_at ≡ none → c.age_seconds ≡ negsuc 0)
    → IsUsable c
unfolding has_lapsed
claimant-IsUsable c p h = (p, λ gone e. absurd (ground (arith, h e)))

module _ (env : Env) (a : Asked) (usable : pos 0 <ℤ a.fallback) where
  read_claim-IsUsable :
      (fs : Fields) (cid : Number) (marker : Text) (c : Claimant)
      → read_claim env a fs cid marker ≡ value c
      → IsUsable c
  unfolding read_claim claimant
  read_claim-IsUsable fs cid marker c h =
      let raw = get (codes "lease") (fields_of marker) in
      let l = marker_lease raw a.fallback a.cli_override in
      elim (Result-cases (timing env a.now (get_or_null (codes "updated_at") fs) l a.fallback)) [
        | inr (e, p) ↦ absurd (ground arith)
        | inl (t, p) ↦
            let timely =
              timing-IsTimely env a.now (get_or_null (codes "updated_at") fs) l a.fallback t
                (marker_lease-positive raw a.fallback a.cli_override usable) usable p in
            let d = claimant cid (fields_of marker) t in
            subst IsUsable (value-injective d c (rw (p, read_claim) at h))
              (claimant-IsUsable d timely.0 timely.1)
      ]

  -- What a comment gives, if it gives a claim.
  IsUsableOption : Option Claimant → Type 0
  IsUsableOption none = Unit
  IsUsableOption (some c) = IsUsable c

  read_object-IsUsable :
      (fs : Fields) (c : Option Claimant) → read_object env a fs ≡ value c → IsUsableOption c
  unfolding read_object IsUsableOption
  read_object-IsUsable fs none h = tt
  read_object-IsUsable fs (some c) h =
      elim (Option-cases (as_text (get_or_null (codes "body") fs))) [
        | inl e ↦ absurd (ground arith)
        | inr (body, e) ↦ elim (Option-cases (claim_marker body)) [
          | inl p ↦ absurd (ground arith)
          | inr (marker, p) ↦ elim (Option-cases (as_number (get_or_null (codes "id") fs))) [
            | inl q ↦ absurd (ground arith)
            | inr (cid, q) ↦ elim (Result-cases (read_claim env a fs cid marker)) [
              | inr (x, r) ↦ absurd (ground arith)
              | inl (d, r) ↦
                  subst IsUsable {x = d} (ground arith) (read_claim-IsUsable fs cid marker d r)
            ]
          ]
        ]
      ]

  read_comment-IsUsable :
      (v : Json) (c : Option Claimant) → read_comment env a v ≡ value c → IsUsableOption c
  unfolding read_comment
  read_comment-IsUsable (obj fs) c h = read_object-IsUsable fs c h
  read_comment-IsUsable _ c h = absurd (ground arith)

  keep-IsUsable :
      (c : Option Claimant) (cs : List Claimant)
      → IsUsableOption c
      → All IsUsable cs
      → All IsUsable (keep c cs)
  unfolding keep IsUsableOption
  keep-IsUsable none cs u us = us
  keep-IsUsable (some c) cs u us = (u, us)

  -- If the lease of the gate itself is at least a minute, so is that of every claim that it reads,
  -- whatever the markers say, and every claim that counts as lapsed has an expiry.
  pub read_claims-IsUsable :
      (vs : List Json) (cs : List Claimant) → read_claims env a vs ≡ value cs → All IsUsable cs
  unfolding read_claims
  read_claims-IsUsable [] cs h = subst (All IsUsable) {x = []} (ground arith) tt
  read_claims-IsUsable (v ∷ vs) cs h = elim (Result-cases (read_comment env a v)) [
    | inr (x, r) ↦ absurd (ground arith)
    | inl (c, r) ↦ elim (Result-cases (read_claims env a vs)) [
      | inr (x, q) ↦ absurd (ground arith)
      | inl (rest, q) ↦
          subst (All IsUsable) {x = keep c rest} (ground arith)
            (keep-IsUsable c rest (read_comment-IsUsable v c r) (read_claims-IsUsable vs rest q))
    ]
  ]

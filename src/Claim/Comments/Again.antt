-- ===== src/Claim/Comments/Again.antt =====
-- The same comments read at two times: the same claims, each with an age of its own.
use fs_quint.Host.Value.{as_number}
use fs_quint.Base.{subst}
use fs_quint.Claim.Marker.{claim_marker}
use fs_quint.Host.Value.{obj}
use fs_quint.Claim.Comments.{read_object, read_comment, read_claims, keep}
use fs_quint.Base.{◌≡◌, refl, inl, inr, ℤ, Option, none, some, List, [], ◌∷◌, arith, Option-cases}
use fs_quint.Base.Text.{Text, codes}
use fs_quint.Host.{value, Datetime, Env}
use fs_quint.Host.Results.{Result-cases}
use fs_quint.Host.Value.{Json, Fields, Number, get_or_null, as_text}
use fs_quint.Claim.Lease.{Lease, marker_lease, parse_instant, seconds_between}
use fs_quint.Claim.Marker.{get, fields_of}
use fs_quint.Claim.Comments.Aging.{AgeAt, timed-AgeAt}
use fs_quint.Claim.Comments.{
  Claimant, Timing, Asked, untimed, timed, fallback_timing, timing, claimant, read_claim,
}

-- One claim at two times.
pub record Aged (now later : Datetime) (c d : Claimant) : Type 0 where
  pub same_id : d.id ≡ c.id
  pub same_lease : d.lease ≡ c.lease
  pub same_expiry : d.expires_at ≡ c.expires_at
  pub age : AgeAt now c.lease.minutes c.expires_at c.age_seconds
  pub later_age : AgeAt later c.lease.minutes c.expires_at d.age_seconds

abbrev pub AgedAll : Datetime → Datetime → List Claimant → List Claimant → Type 0
AgedAll now later [] [] = Unit
AgedAll now later [] (d ∷ ds) = ⊥
AgedAll now later (c ∷ cs) [] = ⊥
AgedAll now later (c ∷ cs) (d ∷ ds) = Aged now later c d × AgedAll now later cs ds

abbrev Again : Datetime → Datetime → Timing → Timing → Type 0
Again now later t u =
    (u.lease ≡ t.lease)
    × (u.expires_at ≡ t.expires_at)
    × AgeAt now t.lease.minutes t.expires_at t.age_seconds
    × AgeAt later t.lease.minutes t.expires_at u.age_seconds

timed-Again :
    (now later at : Datetime) (l : Lease) (fallback : ℤ) (t : Timing)
    → timed now at l fallback ≡ value t
    → (u : Timing) × (timed later at l fallback ≡ value u) × Again now later t u
unfolding timed fallback_timing
timed-Again now later at l fallback t h = (
  record t { age_seconds = seconds_between at later },
  ground arith,
  (
    refl,
    refl,
    timed-AgeAt now at l fallback t h,
    timed-AgeAt later at l fallback (record t { age_seconds = seconds_between at later })
        (ground arith),
  ),
)

timing-Again :
    (env : Env) (now later : Datetime) (v : Json) (l : Lease) (fallback : ℤ) (t : Timing)
    → timing env now v l fallback ≡ value t
    → (u : Timing) × (timing env later v l fallback ≡ value u) × Again now later t u
unfolding timing
timing-Again env now later v l fallback t h = elim (Option-cases (as_text v)) [
  | inl e ↦ (untimed l, ground arith, (ground arith, ground arith, ground arith, ground arith))
  | inr (raw, e) ↦ elim (Result-cases (parse_instant env raw)) [
    | inl (at, p) ↦
        let (u, q, r) = timed-Again now later at l fallback t (ground arith) in (u, ground arith, r)
    | inr (x, p) ↦
        (untimed l, ground arith, (ground arith, ground arith, ground arith, ground arith))
  ]
]

-- What one comment gives at the two times.
abbrev AgainOption : Datetime → Datetime → Option Claimant → Option Claimant → Type 0
AgainOption now later none none = Unit
AgainOption now later none (some d) = ⊥
AgainOption now later (some c) none = ⊥
AgainOption now later (some c) (some d) = Aged now later c d

keep-Aged :
    (now later : Datetime) (c d : Option Claimant) (cs ds : List Claimant)
    → AgainOption now later c d
    → AgedAll now later cs ds
    → AgedAll now later (keep c cs) (keep d ds)
unfolding keep
keep-Aged now later none none cs ds g gs = gs
keep-Aged now later none (some d) cs ds g gs = absurd g
keep-Aged now later (some c) none cs ds g gs = absurd g
keep-Aged now later (some c) (some d) cs ds g gs = (g, gs)

abbrev at_time : Datetime → Asked → Asked
at_time t a = record a { now = t }

module _ (env : Env) (a : Asked) (later : Datetime) where
  read_claim-again :
      (fs : Fields) (cid : Number) (marker : Text) (c : Claimant)
      → read_claim env a fs cid marker ≡ value c
      → (d : Claimant) × (read_claim env (at_time later a) fs cid marker ≡ value d)
        × Aged a.now later c d
  unfolding read_claim claimant
  read_claim-again fs cid marker c h =
      let fields = fields_of marker in
      let l = marker_lease (get (codes "lease") fields) a.fallback a.cli_override in
      elim (Result-cases (timing env a.now (get_or_null (codes "updated_at") fs) l a.fallback)) [
        | inl (t, p) ↦
            let (u, q, (r0, r1, r2, r3)) =
              timing-Again env a.now later (get_or_null (codes "updated_at") fs) l a.fallback t p in
            (claimant cid fields u, rw q, ground arith)
        | inr (e, p) ↦ absurd (ground arith)
      ]

  read_object-again :
      (fs : Fields) (c : Option Claimant)
      → read_object env a fs ≡ value c
      → (d : Option Claimant) × (read_object env (at_time later a) fs ≡ value d)
        × AgainOption a.now later c d
  unfolding read_object
  read_object-again fs c h = elim (Option-cases (as_text (get_or_null (codes "body") fs))) [
    | inl e ↦ (none, ground arith, ground arith)
    | inr (body, e) ↦ elim (Option-cases (claim_marker body)) [
      | inl p ↦ (none, ground arith, ground arith)
      | inr (marker, p) ↦ elim (Option-cases (as_number (get_or_null (codes "id") fs))) [
        | inl q ↦ (none, ground arith, ground arith)
        | inr (cid, q) ↦ elim (Result-cases (read_claim env a fs cid marker)) [
          | inl (c', r) ↦
              let (d, s, g) = read_claim-again fs cid marker c' r in
              (some d, ground arith, ground arith)
          | inr (x, r) ↦ absurd (ground arith)
        ]
      ]
    ]
  ]

  read_comment-again :
      (v : Json) (c : Option Claimant)
      → read_comment env a v ≡ value c
      → (d : Option Claimant) × (read_comment env (at_time later a) v ≡ value d)
        × AgainOption a.now later c d
  unfolding read_comment
  read_comment-again (obj fs) c h = read_object-again fs c h
  read_comment-again _ c h = absurd (ground arith)

  -- Comments that can be read at one time can be read at any other, and give the same claims with
  -- the same leases and expiries, each at the age that it has then.
  pub read_claims-again :
      (vs : List Json) (cs : List Claimant)
      → read_claims env a vs ≡ value cs
      → (ds : List Claimant) × (read_claims env (at_time later a) vs ≡ value ds)
        × AgedAll a.now later cs ds
  unfolding read_claims
  read_claims-again [] cs h = ([], refl, ground arith)
  read_claims-again (v ∷ vs) cs h = elim (Result-cases (read_comment env a v)) [
    | inr (x, r) ↦ absurd (ground arith)
    | inl (c, r) ↦ elim (Result-cases (read_claims env a vs)) [
      | inr (x, q) ↦ absurd (ground arith)
      | inl (rest, q) ↦
          let (d, s, g) = read_comment-again v c r in
          let (ds, t, gs) = read_claims-again vs rest q in
          (
            keep d ds,
            ground arith,
            subst (λ xs. AgedAll a.now later xs (keep d ds)) {x = keep c rest} (ground arith)
                (keep-Aged a.now later c d rest ds g gs),
          )
    ]
  ]

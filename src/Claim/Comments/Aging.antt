-- ===== src/Claim/Comments/Aging.antt =====
-- How the age of a claim depends on the clock, by the instant at which its lease ends.
use fs_quint.Base.{inl, inr}
use fs_quint.Base.{
  Option-cases, ℕ, ◌+◌, ◌*◌, ◌≤◌, ◌≡◌, ap, ℤ, negsuc, pos_part, neg_part, sub_ℕ, quotient, true,
  false, Option, none, some, arith,
}
use fs_quint.Host.{value, Datetime}
use fs_quint.Claim.Lease.{Lease, expiry_of, instant, seconds_between, minute, second}
use fs_quint.Claim.Comments.{Claimant, Timing, timed, fallback_timing, has_lapsed}

-- The age that a lease of `m` minutes has at `now` if it ends at `e`.
unfoldable pub age_by : Datetime → ℤ → Datetime → ℤ
age_by now m e =
    quotient (sub_ℕ (instant now + pos_part m * minute) (instant e + neg_part m * minute)) second

abbrev pub AgeAt : Datetime → ℤ → Option Datetime → ℤ → Type 0
AgeAt now m none age = age ≡ negsuc 0
AgeAt now m (some e) age = age ≡ age_by now m e

pub expiry_of-instant :
    (at : Datetime) (m : ℤ) (e : Datetime)
    → expiry_of at m ≡ some e
    → instant e + neg_part m * minute ≡ instant at + pos_part m * minute
unfolding expiry_of instant
expiry_of-instant at m e h = ground arith

sub_ℕ-shift : (a b c d : ℕ) → d + a ≡ b + c → sub_ℕ a b ≡ sub_ℕ c d
sub_ℕ-shift a b c d h = ground arith

pub seconds-expiry :
    (now at : Datetime) (m : ℤ) (e : Datetime)
    → expiry_of at m ≡ some e
    → AgeAt now m (some e) (seconds_between at now)
unfolding seconds_between age_by
seconds-expiry now at m e h =
    ap (λ d. quotient d second)
      (sub_ℕ-shift (instant now) (instant at) (instant now + pos_part m * minute)
        (instant e + neg_part m * minute) (omega (arith, expiry_of-instant at m e h)))

pub timed-AgeAt :
    (now at : Datetime) (l : Lease) (fallback : ℤ) (t : Timing)
    → timed now at l fallback ≡ value t
    → AgeAt now t.lease.minutes t.expires_at t.age_seconds
unfolding timed fallback_timing
timed-AgeAt now at l fallback t h = elim (Option-cases (expiry_of at l.minutes)) [
  | inr (e, p) ↦ ground (arith, seconds-expiry now at l.minutes e p)
  | inl p ↦ elim (Option-cases (expiry_of at fallback)) [
    | inr (e, q) ↦ ground (arith, seconds-expiry now at fallback e q)
    | inl q ↦ ground arith
  ]
]

-- A claim does not lapse before its lease ends.
pub not-lapsed :
    (now : Datetime) (c : Claimant) (e : Datetime)
    → c.expires_at ≡ some e
    → AgeAt now c.lease.minutes c.expires_at c.age_seconds
    → instant now ≤ instant e
    → has_lapsed c ≡ false
unfolding has_lapsed age_by
not-lapsed now c e x a h = ground arith

-- It has lapsed one second later, if the lease is not negative.
pub lapsed-after :
    (now : Datetime) (c : Claimant) (e : Datetime)
    → c.expires_at ≡ some e
    → AgeAt now c.lease.minutes c.expires_at c.age_seconds
    → neg_part c.lease.minutes ≡ 0
    → instant e + second ≤ instant now
    → has_lapsed c ≡ true
unfolding has_lapsed age_by
lapsed-after now c e x a z h = ground arith

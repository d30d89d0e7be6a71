-- ===== src/Claim/State.antt =====
-- check-claim-generation.py `ClaimState` and `read_claim_state`.
pub mod Order
pub mod Stable
use fs_quint.Base.{
  ℕ, ℤ, pos, negsuc, Bool, true, false, not, ◌&&◌, ◌||◌, Option, none, some, List, [], ◌∷◌, ◌++◌,
  ltb, ltb_ℤ, eqb_ℤ, ◌==◌, select, if◌then◌else◌,
}
use fs_quint.Base.Text.{Text, codes}
use fs_quint.Base.Text.Decimal.{show_int}
use fs_quint.Host.{Result, value, raised, Datetime, Env, Exec, pure, lift, ◌>>=◌}
use fs_quint.Host.Value.{amount, show_number}
use fs_quint.Claim.Transport.{gh_api}
use fs_quint.Claim.Lease.{instant, day}
use fs_quint.Claim.Comments.{Claimant, Asked, decoded, has_lapsed, read_claims}

pub data ClaimState : Type 0 where
  held expired : Claimant → ClaimState
  released : ClaimState

abbrev pub released_generation : Text
released_generation = codes "released"

-- `ClaimState.generation`
unfoldable pub generation : ClaimState → Text
unfolding show_number
generation (held c) = show_number c.id
generation (expired c) = released_generation
generation released = released_generation

-- `min(live, key=lambda c: c.id)`: the first of the least.
unfoldable pub lowest : Claimant → List Claimant → Claimant
lowest best [] = best
lowest best (c ∷ cs) = lowest (if ltb_ℤ (amount c.id) (amount best.id) then c else best) cs

-- `c.expires_at or floor`, as an instant: `datetime.min` is at the start of year 1 in UTC.
unfoldable pub lapse_instant : Claimant → ℕ
unfolding instant
lapse_instant c = elim c.expires_at [ none ↦ day | some e ↦ instant e ]

-- The order of `(c.expires_at or floor, c.id)`.
unfoldable pub lapses_before : Claimant → Claimant → Bool
unfolding lapse_instant amount
lapses_before a b =
    ltb (lapse_instant a) (lapse_instant b)
    || (lapse_instant a == lapse_instant b && ltb_ℤ (amount a.id) (amount b.id))

-- `max(lapsed, key=...)`: the first of the greatest.
unfoldable pub latest : Claimant → List Claimant → Claimant
latest best [] = best
latest best (c ∷ cs) = latest (if lapses_before best c then c else best) cs

unfoldable pub live_claims : List Claimant → List Claimant
live_claims = select (λ c. not (has_lapsed c))

unfoldable pub lapsed_claims : List Claimant → List Claimant
lapsed_claims = select has_lapsed

unfoldable pub lapsed_state : List Claimant → ClaimState
lapsed_state [] = released
lapsed_state (c ∷ cs) = expired (latest c cs)

unfoldable pub live_state : List Claimant → List Claimant → ClaimState
live_state [] lapsed = lapsed_state lapsed
live_state (c ∷ cs) lapsed = held (lowest c cs)

-- The end of `read_claim_state`: what the claims on an item say.
unfoldable pub claim_state : List Claimant → ClaimState
claim_state cs = live_state (live_claims cs) (lapsed_claims cs)

-- The paths of the API that are read.
abbrev pub comments_path : Text → ℤ → Text
comments_path repo number =
    codes "repos/" ++ (repo ++ (codes "/issues/" ++ (show_int number ++ codes "/comments")))

unfoldable pub clock : Env → Option Datetime → Exec Datetime
clock env (some now) w = pure now w
clock env none w = pure (env.wall w) w

module _ (env : Env) where
  unfoldable pub read_claim_state : Text → ℤ → ℤ → Bool → Option Datetime → Exec ClaimState
  unfolding gh_api clock decoded read_claims claim_state show_int
  read_claim_state repo number fallback cli_override now = do
    raw ← gh_api env (
        codes "--paginate"
        ∷ codes "--jq"
        ∷ codes ".[] | {id, body, updated_at}"
        ∷ comments_path repo number
        ∷ [])
    at ← clock env now
    claims ← lift (
        read_claims env (record { now = at; fallback = fallback; cli_override = cli_override })
          (decoded env raw))
    pure (claim_state claims)

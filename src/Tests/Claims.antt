-- ===== src/Tests/Claims.antt =====
-- The claims on an item, at two times.
use fs_quint.Base.{◌<ℤ◌}
use fs_quint.Claim.Comments.Usable.{IsUsable, read_claims-IsUsable}
use fs_quint.Claim.Comments.Aging.{age_by}
use fs_quint.Claim.Lease.{seconds_between}
use fs_quint.Claim.Lease.{parse_instant, expiry_of, marker_lease}
use fs_quint.Claim.Marker.{claim_marker, get, fields_of}
use fs_quint.Host.Value.{as_text, get_or_null, as_number}
use fs_quint.Claim.Comments.{read_comment, read_object, read_claim, timing, timed, keep, claimant}
use fs_quint.Host.Value.{amount}
use fs_quint.Base.Text.{same}
use fs_quint.Claim.Comments.{has_lapsed}
use fs_quint.Claim.State.{live_state, live_claims, lowest}
use fs_quint.Base.{◌≡◌, ◌≢◌, refl, ◌⊎◌, ◌*◌, ◌≤◌, arith, pos, false, none, List, [], ◌∷◌, ◌++◌, All}
use fs_quint.Base.Text.{Text, codes}
use fs_quint.Host.{Datetime, value}
use fs_quint.Host.Value.{show_number}
use fs_quint.Claim.Lease.{day, minute, instant}
use fs_quint.Claim.Comments.{Claimant, Asked, read_claims}
use fs_quint.Claim.Comments.Again.{Aged, AgedAll, read_claims-again}
use fs_quint.Claim.State.{claim_state, held}
use fs_quint.Claim.State.Order.{Describes, claim_state-Describes}
use fs_quint.Claim.State.Stable.{Dies, winner-stays}
use fs_quint.Claim.Verdict.{grade}
use fs_quint.Claim.Verdict.Forgery.{grade-forged}
use fs_quint.Claim.Verdict.Expiry.{Ended, deadline-holds, deadline-revokes}
use fs_quint.Tests.{host, claim, winner, rival, now}

abbrev five : Text
five = codes "5"

rival_passes : grade five (claim_state ((winner ∷ []) ++ rival ∷ [])) ≡ none
unfolding grade claim_state live_state live_claims has_lapsed same lowest amount
rival_passes = refl

rival_differs : show_number rival.id ≢ five
unfolding show_number
rival_differs = λ e. ground (arith, e)

grade-forged_example : grade five (claim_state ((winner ∷ []) ++ [])) ≡ none
grade-forged_example = grade-forged five rival (winner ∷ []) [] rival_differs rival_passes

abbrev asked : Asked
asked = record { now = now; fallback = pos 120; cli_override = false }

abbrev before_expiry : Datetime
before_expiry = record { local = 1040 * minute; shift = day }

abbrev after_expiry : Datetime
after_expiry = record { local = 1051 * minute; shift = day }

claim_reads : read_claims host asked (claim ∷ []) ≡ value (winner ∷ [])
unfolding read_claims read_comment read_object as_text get_or_null claim_marker as_number read_claim
    timing parse_instant timed expiry_of marker_lease get fields_of keep claimant seconds_between
claim_reads = refl

winner_holds : claim_state (winner ∷ []) ≡ held winner
unfolding claim_state live_state live_claims has_lapsed lowest
winner_holds = refl

winner_passes : grade five (claim_state (winner ∷ [])) ≡ none
unfolding grade claim_state live_state live_claims has_lapsed same lowest
winner_passes = refl

now_before : instant now ≤ instant before_expiry
unfolding instant
now_before = ground arith

before_ends : instant before_expiry ≤ instant (record { local = 1050 * minute; shift = day })
unfolding instant
before_ends = ground arith

deadline-holds_example :
    (ds : List Claimant) × (read_claims host (record asked { now = before_expiry }) (claim ∷ [])
      ≡ value ds)
    × (grade five (claim_state ds) ≡ none)
deadline-holds_example =
    deadline-holds host asked before_expiry five (claim ∷ []) (winner ∷ []) winner
      (record { local = 1050 * minute; shift = day }) claim_reads winner_holds winner_passes refl
      now_before before_ends

winner_ends : All (λ c. show_number c.id ≡ five → Ended after_expiry c) (winner ∷ [])
unfolding instant
winner_ends = (λ e. (record { local = 1050 * minute; shift = day }, refl, refl, ground arith), tt)

deadline-revokes_example :
    (ds : List Claimant) × (read_claims host (record asked { now = after_expiry }) (claim ∷ [])
      ≡ value ds)
    × (grade five (claim_state ds) ≢ none)
deadline-revokes_example =
    deadline-revokes host asked after_expiry five (claim ∷ []) (winner ∷ []) claim_reads winner_ends

claim_state-Describes_example : Describes (rival ∷ winner ∷ []) (claim_state (rival ∷ winner ∷ []))
claim_state-Describes_example = claim_state-Describes (rival ∷ winner ∷ [])

read_claims-again_example :
    (ds : List Claimant) × (read_claims host (record asked { now = after_expiry }) (claim ∷ [])
      ≡ value ds)
    × AgedAll now after_expiry (winner ∷ []) ds
read_claims-again_example =
    read_claims-again host asked after_expiry (claim ∷ []) (winner ∷ []) claim_reads

abbrev older_winner : Claimant
older_winner = record winner { age_seconds = pos 3000 }

winner_ages : AgedAll now before_expiry (winner ∷ []) (older_winner ∷ [])
unfolding age_by instant
winner_ages = (
  record { same_id = refl; same_lease = refl; same_expiry = refl; age = refl; later_age = refl },
  tt,
)

winner-stays_example :
    ((d : Claimant) × Aged now before_expiry winner d × (claim_state (older_winner ∷ []) ≡ held d))
    ⊎ Dies now before_expiry now_before winner
winner-stays_example =
    winner-stays now before_expiry now_before (winner ∷ []) (older_winner ∷ []) winner winner_ages
      winner_holds

asked_usable : pos 0 <ℤ asked.fallback
asked_usable = omega arith

read_claims-IsUsable_example : All IsUsable (winner ∷ [])
read_claims-IsUsable_example =
    read_claims-IsUsable host asked asked_usable (claim ∷ []) (winner ∷ []) claim_reads

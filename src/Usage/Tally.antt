-- ===== src/Usage/Tally.antt =====
-- The usage of a turn: the last counters of each response, summed over its responses.
pub mod Finals
use fs_quint.Base.{◌+◌, Bool, ◌&&◌, ◌==◌, Option, none, some, List, [], ◌∷◌, select, if◌then◌else◌}
use fs_quint.Base.Text.{Text, same}
use fs_quint.Usage.{Counts}
use fs_quint.Usage.Rollout.{Observed}

pub record Response : Type 0 where
  pub id : Text
  pub usage : Counts

-- `responses[id] = usage`
unfoldable pub put : Text → Counts → List Response → List Response
unfolding same
put id c [] = record { id = id; usage = c } ∷ []
put id c (r ∷ rs) =
    let rest = put id c rs in if same r.id id then record r { usage = c } ∷ rs else r ∷ rest

unfoldable pub responses_from : List Response → List Observed → List Response
unfolding put
responses_from rs [] = rs
responses_from rs (o ∷ os) = responses_from (put o.response o.usage rs) os

unfoldable pub plus : Counts → Counts → Counts
plus a b = record {
  input = a.input + b.input;
  cached = a.cached + b.cached;
  output = a.output + b.output;
  reasoning = a.reasoning + b.reasoning;
  total = a.total + b.total;
}

abbrev pub no_usage : Counts
no_usage = record { input = 0; cached = 0; output = 0; reasoning = 0; total = 0 }

unfoldable pub sum : List Response → Counts
unfolding plus
sum [] = no_usage
sum (r ∷ rs) = plus r.usage (sum rs)

unfoldable pub tally : List Observed → Counts
unfolding responses_from sum
tally os = sum (responses_from [] os)

unfoldable pub same_counts : Counts → Counts → Bool
same_counts a b =
    a.input == b.input
    && a.cached == b.cached
    && a.output == b.output
    && a.reasoning == b.reasoning
    && a.total == b.total

unfoldable pub last_total : List Observed → Option Counts
last_total [] = none
last_total (o ∷ []) = some o.turn_total
last_total (o ∷ p ∷ os) = last_total (p ∷ os)

-- The usage of a turn with these records, where they agree with the turn's own total.
unfoldable pub turn_usage : List Observed → Option Counts
unfolding tally same_counts last_total
turn_usage os = elim (last_total os) [
  | none ↦ none
  | some total ↦ if same_counts (tally os) total then some (tally os) else none
]

-- `records.get(turn)`
unfoldable pub of_turn : Text → List Observed → List Observed
unfolding same
of_turn turn os = select (λ o. same o.turn turn) os

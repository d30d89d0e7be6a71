-- ===== src/Claim/Sweep/Counting.antt =====
-- The counters of the sweep, in terms of how each pull request ended.
use fs_quint.Base.{◌≡◌, ◌+◌, ℕ, Bool, true, false, List, [], ◌∷◌, if◌then◌else◌}
use fs_quint.Host.{value, World, Env}
use fs_quint.Host.Value.{Json}
use fs_quint.Claim.Sweep.{Outcome, unfenced, skips, crashes, revoked, Sweep, Counts, sweep_pr}

abbrev is_looked : Outcome → Bool
is_looked unfenced = false
is_looked _ = true

abbrev is_changed : Outcome → Bool
is_changed revoked = true
is_changed _ = false

abbrev is_skipped : Outcome → Bool
is_skipped skips = true
is_skipped crashes = true
is_skipped _ = false

abbrev is_crashed : Outcome → Bool
is_crashed crashes = true
is_crashed _ = false

-- How many outcomes are of a kind.
abbrev number : (Outcome → Bool) → List Outcome → ℕ
number p [] = 0
number p (o ∷ os) = let rest = number p os in if p o then rest + 1 else rest

-- The pull requests ended so, one after the other, from that log on.
abbrev pub Ended : Env → Sweep → List Json → World → List Outcome → Type 0
Ended env s [] w [] = Unit
Ended env s (pr ∷ prs) w (o ∷ os) =
    ((sweep_pr env s pr w).result ≡ value o) × Ended env s prs (sweep_pr env s pr w).world os
Ended env s prs w os = ⊥

-- The counters are those before with the outcomes added.
record IsAdded (n m : Counts) (os : List Outcome) : Type 0 where
  looked : m.looked ≡ n.looked + number is_looked os
  changed : m.changed ≡ n.changed + number is_changed os
  skipped : m.skipped ≡ n.skipped + number is_skipped os
  crashed : m.crashed ≡ n.crashed + number is_crashed os

-- The counters are the numbers of pull requests that ended in each way: looked at are all but those
-- that are not fenced, and a crash is skipped too.
pub record IsTally (m : Counts) (os : List Outcome) : Type 0 where
  pub looked : m.looked ≡ number is_looked os
  pub changed : m.changed ≡ number is_changed os
  pub skipped : m.skipped ≡ number is_skipped os
  pub crashed : m.crashed ≡ number is_crashed os

-- ===== src/Claim/State/Order.antt =====
-- What `claim_state` says of a list of claims, in terms of their ids and lapse instants alone.
use fs_quint.Base.{
  ℤ, ◌<◌, ◌≡◌, refl, sym, subst, ◌⊎◌, inl, inr, Bool, true, false, not, List, [], ◌∷◌, All, select,
  ltb_ℤ, ◌≤ℤ◌, if◌then◌else◌, arith,
}
use fs_quint.Host.Value.{amount}
use fs_quint.Claim.Comments.{Claimant, has_lapsed}
use fs_quint.Claim.State.{
  ClaimState, held, expired, released, lowest, latest, lapse_instant, lapses_before, live_claims,
  lapsed_claims, lapsed_state, live_state, claim_state,
}

abbrev pub id : Claimant → ℤ
id c = amount c.id

-- The claim is an item of the list.
abbrev pub Among : Claimant → List Claimant → Type 0
Among c [] = ⊥
Among c (d ∷ ds) = (c ≡ d) ⊎ Among c ds

-- The claim has no later lapse behind it, ties decided by the id.
abbrev pub NotBefore : Claimant → Claimant → Type 0
NotBefore w c =
    (lapse_instant c < lapse_instant w) ⊎ ((lapse_instant c ≡ lapse_instant w) × (id c ≤ℤ id w))

-- What each state promises of the claims on an item.
abbrev pub Describes : List Claimant → ClaimState → Type 0
Describes cs (held w) =
    Among w cs × (has_lapsed w ≡ false) × All (λ c. (has_lapsed c ≡ true) ⊎ (id w ≤ℤ id c)) cs
Describes cs (expired w) = Among w cs × All (λ c. has_lapsed c ≡ true) cs × All (NotBefore w) cs
Describes cs released = cs ≡ []

lowest_cases : (b : Claimant) (cs : List Claimant) → (lowest b cs ≡ b) ⊎ Among (lowest b cs) cs
unfolding lowest
lowest_cases b [] = inl refl
lowest_cases b (c ∷ cs) = ground (arith, lowest_cases c cs, lowest_cases b cs)

-- The lower of two.
abbrev pub lower_of : Claimant → Claimant → Claimant
lower_of b c = if ltb_ℤ (id c) (id b) then c else b

lower_of-le : (b c : Claimant) → (id (lower_of b c) ≤ℤ id b) × (id (lower_of b c) ≤ℤ id c)
lower_of-le b c = ground arith

≤ℤ-trans : (a b c : ℤ) → a ≤ℤ b → b ≤ℤ c → a ≤ℤ c
≤ℤ-trans a b c h k = omega arith

lowest-le :
    (b : Claimant) (cs : List Claimant)
    → (id (lowest b cs) ≤ℤ id b) × All (λ c. id (lowest b cs) ≤ℤ id c) cs
unfolding lowest
lowest-le b [] = (omega arith, tt)
lowest-le b (c ∷ cs) =
    let (top, rest) = lowest-le (lower_of b c) cs in
    let (left, right) = lower_of-le b c in
    let below = ≤ℤ-trans (id (lowest (lower_of b c) cs)) (id (lower_of b c)) in
    (below (id b) top left, (below (id c) top right, rest))

latest_cases : (b : Claimant) (cs : List Claimant) → (latest b cs ≡ b) ⊎ Among (latest b cs) cs
unfolding latest
latest_cases b [] = inl refl
latest_cases b (c ∷ cs) = ground (arith, latest_cases c cs, latest_cases b cs)

NotBefore-refl : (b : Claimant) → NotBefore b b
NotBefore-refl b = inr (refl, omega arith)

NotBefore-trans : (a b c : Claimant) → NotBefore a b → NotBefore b c → NotBefore a c
NotBefore-trans a b c h k = ground arith

-- The later of two.
abbrev later : Claimant → Claimant → Claimant
later b c = if lapses_before b c then c else b

later-NotBefore : (b c : Claimant) → NotBefore (later b c) b × NotBefore (later b c) c
unfolding lapses_before
later-NotBefore b c = ground arith

latest-NotBefore :
    (b : Claimant) (cs : List Claimant)
    → NotBefore (latest b cs) b × All (NotBefore (latest b cs)) cs
unfolding latest
latest-NotBefore b [] = (NotBefore-refl b, tt)
latest-NotBefore b (c ∷ cs) =
    let (top, rest) = latest-NotBefore (later b c) cs in
    let (left, right) = later-NotBefore b c in
    (NotBefore-trans _ (later b c) b top left, (NotBefore-trans _ (later b c) c top right, rest))

Among-select :
    (p : Claimant → Bool) (c : Claimant) (cs : List Claimant)
    → Among c (select p cs)
    → Among c cs × (p c ≡ true)
Among-select p c [] m = absurd m
Among-select p c (d ∷ ds) m = ground (arith, Among-select p c ds)

-- The ids of the live claims bound those of all that have not lapsed.
live-bound :
    (w : Claimant) (cs : List Claimant)
    → All (λ c. id w ≤ℤ id c) (live_claims cs)
    → All (λ c. (has_lapsed c ≡ true) ⊎ (id w ≤ℤ id c)) cs
unfolding live_claims
live-bound w [] a = tt
live-bound w (c ∷ cs) a = ground (arith, live-bound w cs)

live-nil : (cs : List Claimant) → live_claims cs ≡ [] → All (λ c. has_lapsed c ≡ true) cs
unfolding live_claims
live-nil [] h = tt
live-nil (c ∷ cs) h = ground (arith, live-nil cs)

lapsed-All : (cs : List Claimant) → All (λ c. has_lapsed c ≡ true) cs → lapsed_claims cs ≡ cs
unfolding lapsed_claims
lapsed-All [] a = refl
lapsed-All (c ∷ cs) a = ground (arith, lapsed-All cs)

All-self : (P : Claimant → Type 0) (xs ys : List Claimant) → xs ≡ ys → All P xs → All P ys
All-self P xs ys e a = subst (All P) e a

-- The spec of each list that `claim_state` is applied to.
lapsed_state-Describes :
    (cs ls : List Claimant)
    → All (λ c. has_lapsed c ≡ true) cs
    → ls ≡ cs
    → Describes cs (lapsed_state ls)
unfolding lapsed_state
lapsed_state-Describes cs [] a e = sym e
lapsed_state-Describes cs (l ∷ ls) a e =
    let (top, rest) = latest-NotBefore l ls in
    subst (λ ds. Describes ds (expired (latest l ls))) e
      (latest_cases l ls, subst (All (λ c. has_lapsed c ≡ true)) (sym e) a, (top, rest))

live_state-Describes :
    (cs ls : List Claimant) → live_claims cs ≡ ls → Describes cs (live_state ls (lapsed_claims cs))
unfolding live_state
live_state-Describes cs [] e =
    let gone = live-nil cs e in lapsed_state-Describes cs _ gone (lapsed-All cs gone)
live_state-Describes cs (l ∷ ls) e =
    let w = lowest l ls in
    let (here, live) =
      Among-select (λ c. not (has_lapsed c)) w cs
        (unfold live_claims in subst (Among w) (sym e) (lowest_cases l ls)) in
    (here, ground arith, live-bound w cs (subst (All (λ c. id w ≤ℤ id c)) (sym e) (lowest-le l ls)))

-- The state of an item: `held` names a claim that has not lapsed, and none that has not lapsed has a
-- lower id; `expired` means that every claim has lapsed, and names one after which none lapses, by
-- instant and then by id; `released` means that there is no claim.
pub claim_state-Describes : (cs : List Claimant) → Describes cs (claim_state cs)
unfolding claim_state
claim_state-Describes cs = live_state-Describes cs (live_claims cs) refl

-- ===== src/Claim/State/Stable.antt =====
-- As time passes over unchanged comments, only the lapse of the winner itself moves the winner.
use fs_quint.Host.Value.{amount}
use fs_quint.Base.{
  ◌≤◌, ◌≡◌, refl, ap, subst, ◌⊎◌, inl, inr, ◌↔◌, ◌<ℤ◌, true, false, Option, none, some, List, [],
  ◌∷◌, ◌≤ℤ◌, if◌then◌else◌, Bool-cases, arith,
}
use fs_quint.Host.{Datetime}
use fs_quint.Claim.Lease.{instant}
use fs_quint.Claim.Comments.{Claimant, has_lapsed}
use fs_quint.Claim.Comments.Aging.{age_by}
use fs_quint.Claim.Comments.Again.{Aged, AgedAll}
use fs_quint.Claim.State.{
  held, lowest, live_claims, lapsed_claims, lapsed_state, live_state, claim_state,
}
use fs_quint.Claim.State.Order.{id, lower_of}

-- One step of the search for the lowest live id, and the search.
pick : Option Claimant → Claimant → Claimant
pick none c = c
pick (some b) c = lower_of b c

step : Option Claimant → Claimant → Option Claimant
step acc c = if has_lapsed c then acc else some (pick acc c)

best : Option Claimant → List Claimant → Option Claimant
best acc [] = acc
best acc (c ∷ cs) = best (step acc c) cs

best-some :
    (b : Claimant) (cs : List Claimant) → best (some b) cs ≡ some (lowest b (live_claims cs))
unfolding best step pick lowest live_claims
best-some b [] = refl
best-some b (c ∷ cs) = elim (Bool-cases (has_lapsed c)) [
  | inl gone ↦ rw gone (best-some b cs)
  | inr live ↦ rw live (best-some (lower_of b c) cs)
]

lead : List Claimant → Option Claimant
lead [] = none
lead (l ∷ ls) = some (lowest l ls)

best-none : (cs : List Claimant) → best none cs ≡ lead (live_claims cs)
unfolding best step pick lead live_claims
best-none [] = refl
best-none (c ∷ cs) = elim (Bool-cases (has_lapsed c)) [
  | inl gone ↦ rw gone (best-none cs)
  | inr live ↦ rw live (best-some c cs)
]

live_state-lead :
    (ls ds : List Claimant) (w : Claimant) → (live_state ls ds ≡ held w) ↔ (lead ls ≡ some w)
unfolding live_state lead lapsed_state
live_state-lead [] [] w = ((λ h. cc), (λ h. cc))
live_state-lead [] (d ∷ ds) w = ((λ h. cc), (λ h. cc))
live_state-lead (l ∷ ls) ds w = ground arith

claim_state-best :
    (cs : List Claimant) (w : Claimant) → (claim_state cs ≡ held w) ↔ (best none cs ≡ some w)
unfolding claim_state
claim_state-best cs w = rw (best-none cs) (live_state-lead (live_claims cs) (lapsed_claims cs) w)

step-gone : (acc : Option Claimant) (c : Claimant) → has_lapsed c ≡ true → step acc c ≡ acc
unfolding step
step-gone acc c h = rw h

step-live :
    (acc : Option Claimant) (c : Claimant) → has_lapsed c ≡ false → step acc c ≡ some (pick acc c)
unfolding step
step-live acc c h = rw h

pick_cases :
    (b c : Claimant)
    → ((pick (some b) c ≡ c) × (id c <ℤ id b)) ⊎ ((pick (some b) c ≡ b) × (id b ≤ℤ id c))
unfolding pick
pick_cases b c = ground arith

module _ (now later : Datetime) (on : instant now ≤ instant later) where
  lapsed-stays : (c d : Claimant) → Aged now later c d → has_lapsed c ≡ true → has_lapsed d ≡ true
  unfolding has_lapsed age_by
  lapsed-stays c d g h = ground arith

  -- A claim that has lapsed at the later time.
  abbrev pub Dies : Claimant → Type 0
  Dies b = (d : Claimant) × Aged now later b d × (has_lapsed d ≡ true)

  abbrev Beyond : Claimant → Option Claimant → Type 0
  Beyond b none = Unit
  Beyond b (some x) = id b ≤ℤ id x

  abbrev Paired : Claimant → Option Claimant → Type 0
  Paired b none = ⊥
  Paired b (some d) = Aged now later b d

  -- The best claims of the two searches.
  abbrev Tracks : Option Claimant → Option Claimant → Type 0
  Tracks none none = Unit
  Tracks none (some x) = ⊥
  Tracks (some b) acc = Paired b acc ⊎ (Dies b × Beyond b acc)

  same-ids : (c d : Claimant) → Aged now later c d → id d ≡ id c
  same-ids c d g = ap amount g.same_id

  Beyond-Tracks :
      (b c : Claimant) (x : Option Claimant) → id c <ℤ id b → Tracks (some b) x → Beyond c x
  Beyond-Tracks b c none h t = tt
  Beyond-Tracks b c (some y) h (inl p) = ground (arith, same-ids b y p)
  Beyond-Tracks b c (some y) h (inr (d, o)) = omega arith

  -- Both claims are live at their times.
  live-Tracks :
      (b c d : Claimant) (x : Option Claimant)
      → Aged now later c d
      → Tracks (some b) x
      → Tracks (some (pick (some b) c)) (some (pick x d))
  unfolding pick
  live-Tracks b c d none g (inl p) = absurd p
  live-Tracks b c d none g (inr (dies, o)) = elim (pick_cases b c) [
    | inl (e, h) ↦ rw (e, pick) (inl g)
    | inr (e, h) ↦ rw (e, pick) (inr (dies, ground (arith, same-ids c d g)))
  ]
  live-Tracks b c d (some y) g (inl p) = elim (pick_cases b c) [
    | inl (e, h) ↦ elim (pick_cases y d) [
      | inl (f, k) ↦ rw (e, f) (inl g)
      | inr (f, k) ↦ absurd (ground (arith, same-ids c d g, same-ids b y p))
    ]
    | inr (e, h) ↦ elim (pick_cases y d) [
      | inl (f, k) ↦ absurd (ground (arith, same-ids c d g, same-ids b y p))
      | inr (f, k) ↦ rw (e, f) (inl p)
    ]
  ]
  live-Tracks b c d (some y) g (inr (dies, o)) = elim (pick_cases b c) [
    | inl (e, h) ↦ elim (pick_cases y d) [
      | inl (f, k) ↦ rw (e, f) (inl g)
      | inr (f, k) ↦ absurd (ground (arith, same-ids c d g))
    ]
    | inr (e, h) ↦ elim (pick_cases y d) [
      | inl (f, k) ↦ rw (e, f) (inr (dies, ground (arith, same-ids c d g)))
      | inr (f, k) ↦ rw (e, f) (inr (dies, o))
    ]
  ]

  first-Tracks :
      (c d : Claimant) → Aged now later c d → Tracks (some (pick none c)) (some (pick none d))
  unfolding pick
  first-Tracks c d g = inl g

  gone-Tracks :
      (b x : Option Claimant) (c d : Claimant)
      → Aged now later c d
      → has_lapsed d ≡ true
      → Tracks b x
      → Tracks (some (pick b c)) x
  gone-Tracks none none c d g h t = unfold pick in inr ((d, g, h), tt)
  gone-Tracks none (some y) c d g h t = absurd t
  gone-Tracks (some b) x c d g h t = elim (pick_cases b c) [
    | inl (e, k) ↦ rw e (inr ((d, g, h), Beyond-Tracks b c x k t))
    | inr (e, k) ↦ rw e t
  ]

  both-Tracks :
      (b x : Option Claimant) (c d : Claimant)
      → Aged now later c d
      → Tracks b x
      → Tracks (some (pick b c)) (some (pick x d))
  both-Tracks none none c d g t = first-Tracks c d g
  both-Tracks none (some y) c d g t = absurd t
  both-Tracks (some b) x c d g t = live-Tracks b c d x g t

  step-Tracks :
      (b x : Option Claimant) (c d : Claimant)
      → Aged now later c d
      → Tracks b x
      → Tracks (step b c) (step x d)
  step-Tracks b x c d g t = elim (Bool-cases (has_lapsed c)) [
    | inl gone ↦ rw (step-gone b c gone, step-gone x d (lapsed-stays c d g gone)) t
    | inr live ↦ elim (Bool-cases (has_lapsed d)) [
      | inl gone ↦ rw (step-live b c live, step-gone x d gone) (gone-Tracks b x c d g gone t)
      | inr alive ↦ rw (step-live b c live, step-live x d alive) (both-Tracks b x c d g t)
    ]
  ]

  best-Tracks :
      (b x : Option Claimant) (cs ds : List Claimant)
      → AgedAll now later cs ds
      → Tracks b x
      → Tracks (best b cs) (best x ds)
  unfolding best
  best-Tracks b x [] [] g t = t
  best-Tracks b x [] (d ∷ ds) g t = absurd g
  best-Tracks b x (c ∷ cs) [] g t = absurd g
  best-Tracks b x (c ∷ cs) (d ∷ ds) g t =
      best-Tracks (step b c) (step x d) cs ds g.1 (step-Tracks b x c d g.0 t)

  -- Where nothing but time passes, the winner of an item stays its winner until its own lease has
  -- lapsed.
  pub winner-stays :
      (cs ds : List Claimant) (w : Claimant)
      → AgedAll now later cs ds
      → claim_state cs ≡ held w
      → ((d : Claimant) × Aged now later w d × (claim_state ds ≡ held d)) ⊎ Dies w
  winner-stays cs ds w g h = go (best none ds) refl (
      subst (λ b. Tracks b (best none ds)) ((claim_state-best cs w).0 h)
        (best-Tracks none none cs ds g tt))
    where
      go :
          (x : Option Claimant)
          → best none ds ≡ x
          → Tracks (some w) x
          → ((d : Claimant) × Aged now later w d × (claim_state ds ≡ held d)) ⊎ Dies w
      go none e (inl p) = absurd p
      go (some d) e (inl p) = inl (d, p, (claim_state-best ds d).1 e)
      go x e (inr (dies, o)) = inr dies

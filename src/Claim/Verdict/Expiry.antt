-- ===== src/Claim/Verdict/Expiry.antt =====
-- The deadline that a pass publishes: how long it holds, and when it has ended.
use mathlib.Core.Bool.{false≢true}
use fs_quint.Base.{
  ◌+◌, ◌≤◌, ◌≡◌, sym, ap, ◌∙◌, ◌≢◌, ◌↔◌, inl, inr, neg_part, true, none, some, List, [], ◌∷◌, All,
  subst, arith, true,
}
use fs_quint.Base.Text.{Text, same_iff}
use fs_quint.Host.{Datetime, Env, value}
use fs_quint.Host.Value.{Json, show_number}
use fs_quint.Claim.Lease.{instant, second}
use fs_quint.Claim.Comments.{Claimant, Asked, has_lapsed, read_claims}
use fs_quint.Claim.Comments.Aging.{AgeAt, not-lapsed, lapsed-after}
use fs_quint.Claim.Comments.Again.{Aged, AgedAll, read_claims-again}
use fs_quint.Claim.State.{ClaimState, held, expired, released, claim_state}
use fs_quint.Claim.State.Order.{Among, Describes, claim_state-Describes}
use fs_quint.Claim.State.Stable.{winner-stays}
use fs_quint.Claim.Verdict.{grade}

held-grade : (gen : Text) (w : Claimant) → (grade gen (held w) ≡ none) ↔ (show_number w.id ≡ gen)
unfolding grade
held-grade gen w = ground (arith, same_iff (show_number w.id) gen)

Aged-grade :
    (gen : Text) (now later : Datetime) (w d : Claimant)
    → Aged now later w d
    → grade gen (held w) ≡ none
    → grade gen (held d) ≡ none
Aged-grade gen now later w d g h =
    (held-grade gen d).1 (ap show_number g.same_id ∙ (held-grade gen w).0 h)

Aged-AgeAt :
    (now later : Datetime) (c d : Claimant)
    → Aged now later c d
    → AgeAt later d.lease.minutes d.expires_at d.age_seconds
Aged-AgeAt now later c d g = ground arith

outlives :
    (now later : Datetime) (w : Claimant) (e : Datetime)
    → instant now ≤ instant later
    → w.expires_at ≡ some e
    → instant later ≤ instant e
    → ¬ ((d : Claimant) × Aged now later w d × (has_lapsed d ≡ true))
outlives now later w e on x h (d, g, gone) =
    cc (not-lapsed later d e (g.same_expiry ∙ x) (Aged-AgeAt now later w d g) h)

-- A pass holds for as long as it says: if the comments of an item, read at one time, make `w` the
-- winner and its generation the one that the pull request names, then at every later time up to
-- the expiry of `w` the same comments can be read and the verdict is a pass.
pub deadline-holds :
    (env : Env) (a : Asked) (later : Datetime) (gen : Text) (vs : List Json) (cs : List Claimant)
    (w : Claimant) (e : Datetime)
    → read_claims env a vs ≡ value cs
    → claim_state cs ≡ held w
    → grade gen (claim_state cs) ≡ none
    → w.expires_at ≡ some e
    → instant a.now ≤ instant later
    → instant later ≤ instant e
    → (ds : List Claimant) × (read_claims env (record a { now = later }) vs ≡ value ds)
      × (grade gen (claim_state ds) ≡ none)
deadline-holds env a later gen vs cs w e r s p x on before =
    let (ds, t, g) = read_claims-again env a later vs cs r in
    (
      ds,
      t,
      elim (winner-stays a.now later on cs ds w g s) [
        | inl (d, k, h) ↦
            rw h (Aged-grade gen a.now later w d k (subst (λ c. grade gen c ≡ none) s p))
        | inr dies ↦ absurd (outlives a.now later w e on x before dies)
      ],
    )

-- The claim ended, under a lease that is not negative, at least a second before.
abbrev pub Ended : Datetime → Claimant → Type 0
Ended later c =
    (e : Datetime) × (c.expires_at ≡ some e)
    × (neg_part c.lease.minutes ≡ 0)
    × (instant e + second ≤ instant later)

Ended-lapsed :
    (now later : Datetime) (c d : Claimant)
    → Aged now later c d
    → Ended later c
    → has_lapsed d ≡ true
Ended-lapsed now later c d g (e, x, z, h) =
    lapsed-after later d e (g.same_expiry ∙ x) (Aged-AgeAt now later c d g)
      (ap (λ l. neg_part l.minutes) g.same_lease ∙ z) h

-- A claim among the later ones has a partner among the earlier ones.
Ended-Among :
    (gen : Text) (now later : Datetime) (cs ds : List Claimant) (d : Claimant)
    → AgedAll now later cs ds
    → All (λ c. show_number c.id ≡ gen → Ended later c) cs
    → Among d ds
    → show_number d.id ≡ gen
    → has_lapsed d ≡ true
Ended-Among gen now later [] [] d g a m s = absurd m
Ended-Among gen now later [] (x ∷ ds) d g a m s = absurd g
Ended-Among gen now later (c ∷ cs) [] d g a m s = absurd m
Ended-Among gen now later (c ∷ cs) (x ∷ ds) d g a (inl e) s =
    ap has_lapsed e
    ∙ Ended-lapsed now later c x g.0
        (a.0 (sym (ap show_number g.0.same_id) ∙ sym (ap (λ y. show_number y.id) e) ∙ s))
Ended-Among gen now later (c ∷ cs) (x ∷ ds) d g a (inr m) s =
    Ended-Among gen now later cs ds d g.1 a.1 m s

refused-state :
    (gen : Text) (ds : List Claimant) (t : ClaimState)
    → Describes ds t
    → ((d : Claimant) → Among d ds → show_number d.id ≡ gen → has_lapsed d ≡ true)
    → grade gen t ≢ none
unfolding grade
refused-state gen ds released q h = λ p. cc
refused-state gen ds (expired c) q h = λ p. cc
refused-state gen ds (held w) q h = λ p. false≢true (sym q.1 ∙ h w q.0 ((held-grade gen w).0 p))

-- And no longer: at a time when every claim that bears the generation has ended a second or more
-- before, the verdict over the same comments is not a pass.
pub deadline-revokes :
    (env : Env) (a : Asked) (later : Datetime) (gen : Text) (vs : List Json) (cs : List Claimant)
    → read_claims env a vs ≡ value cs
    → All (λ c. show_number c.id ≡ gen → Ended later c) cs
    → (ds : List Claimant) × (read_claims env (record a { now = later }) vs ≡ value ds)
      × (grade gen (claim_state ds) ≢ none)
deadline-revokes env a later gen vs cs r ended =
    let (ds, t, g) = read_claims-again env a later vs cs r in
    (
      ds,
      t,
      refused-state gen ds (claim_state ds) (claim_state-Describes ds)
          (λ d m s. Ended-Among gen a.now later cs ds d g ended m s),
    )

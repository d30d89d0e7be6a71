-- ===== src/Claim/Verdict/Forgery.antt =====
-- A claim comment that somebody adds to an item cannot turn a refusal into a pass.
use fs_quint.Base.{
  ◌≡◌, refl, sym, subst, ◌∙◌, ap, ◌≢◌, ◌⊎◌, inl, inr, Bool, not, none, List, [], ◌∷◌, ◌++◌, select,
  ◌≤ℤ◌, arith, ◌↔◌,
}
use fs_quint.Base.Text.{Text, same_iff}
use fs_quint.Host.Value.{show_number}
use fs_quint.Claim.Comments.{Claimant, has_lapsed}
use fs_quint.Claim.State.{lowest, live_claims, lapsed_claims, lapsed_state, live_state, claim_state}
use fs_quint.Claim.State.Order.{id, lower_of}
use fs_quint.Claim.Verdict.{grade}

-- The claim at the head of a list of live claims is displaced by `c`, or `c` changes nothing.
lowest_below :
    (c b : Claimant) (ys : List Claimant)
    → id c ≤ℤ id b
    → (lowest c ys ≡ c) ⊎ (lowest c ys ≡ lowest b ys)
unfolding lowest
lowest_below c b [] h = inl refl
lowest_below c b (y ∷ ys) h = ground (arith, lowest_below c b ys, lowest_below c y ys)

lowest_insert :
    (b c : Claimant) (xs ys : List Claimant)
    → (lowest b (xs ++ c ∷ ys) ≡ c) ⊎ (lowest b (xs ++ c ∷ ys) ≡ lowest b (xs ++ ys))
unfolding lowest
lowest_insert b c [] ys = ground (arith, lowest_below c b ys)
lowest_insert b c (x ∷ xs) ys = lowest_insert (lower_of b x) c xs ys

select-append :
    (p : Claimant → Bool) (xs ys : List Claimant) → select p (xs ++ ys) ≡ select p xs ++ select p ys
select-append p [] ys = refl
select-append p (x ∷ xs) ys = ground (arith, select-append p xs ys)

live-append : (xs ys : List Claimant) → live_claims (xs ++ ys) ≡ live_claims xs ++ live_claims ys
unfolding live_claims
live-append xs ys = select-append (λ c. not (has_lapsed c)) xs ys

live-cons :
    (c : Claimant) (ys : List Claimant)
    → (live_claims (c ∷ ys) ≡ live_claims ys) ⊎ (live_claims (c ∷ ys) ≡ c ∷ live_claims ys)
unfolding live_claims
live-cons c ys = ground arith

-- What a pass says of the live claims, and what suffices for one.
abbrev pub Leads : Text → List Claimant → Type 0
Leads gen [] = ⊥
Leads gen (c ∷ cs) = show_number (lowest c cs).id ≡ gen

lapsed-fails : (gen : Text) (ds : List Claimant) → grade gen (lapsed_state ds) ≢ none
unfolding grade lapsed_state
lapsed-fails gen [] = λ h. cc
lapsed-fails gen (d ∷ ds) = λ h. cc

live_iff :
    (gen : Text) (ls ds : List Claimant) → (grade gen (live_state ls ds) ≡ none) ↔ Leads gen ls
unfolding grade live_state
live_iff gen [] ds = ((λ h. lapsed-fails gen ds h), (λ h. absurd h))
live_iff gen (l ∷ ls) ds = ground (arith, same_iff (show_number (lowest l ls).id) gen)

pub passes_iff :
    (gen : Text) (cs : List Claimant)
    → (grade gen (claim_state cs) ≡ none) ↔ Leads gen (live_claims cs)
unfolding claim_state
passes_iff gen cs = live_iff gen (live_claims cs) (lapsed_claims cs)

Leads-insert :
    (gen : Text) (c : Claimant) (xs ys : List Claimant)
    → show_number c.id ≢ gen
    → Leads gen (xs ++ c ∷ ys)
    → Leads gen (xs ++ ys)
unfolding lowest
Leads-insert gen c [] [] h l = absurd (h l)
Leads-insert gen c [] (y ∷ ys) h l = ground (arith, lowest_below c y ys)
Leads-insert gen c (x ∷ xs) ys h l = elim (lowest_insert x c xs ys) [
  | inl e ↦ absurd (h (sym (ap (λ d. show_number d.id) e) ∙ l))
  | inr e ↦ sym (ap (λ d. show_number d.id) e) ∙ l
]

-- A claim marker that is added anywhere among the comments of an item, and whose id is not the
-- generation that the pull request names, never turns a refusal into a pass: if the verdict with it
-- is a pass, so is the verdict without it.
pub grade-forged :
    (gen : Text) (c : Claimant) (xs ys : List Claimant)
    → show_number c.id ≢ gen
    → grade gen (claim_state (xs ++ c ∷ ys)) ≡ none
    → grade gen (claim_state (xs ++ ys)) ≡ none
grade-forged gen c xs ys h p = (passes_iff gen (xs ++ ys)).1 (
    subst (Leads gen) (sym (live-append xs ys)) (elim (live-cons c ys) [
      | inl old ↦ subst (Leads gen) (ap (λ t. live_claims xs ++ t) old) leads
      | inr new ↦
          Leads-insert gen c (live_claims xs) (live_claims ys) h
            (subst (Leads gen) (ap (λ t. live_claims xs ++ t) new) leads)
    ]))
  where
    leads : Leads gen (live_claims xs ++ live_claims (c ∷ ys))
    leads = subst (Leads gen) (live-append xs (c ∷ ys)) ((passes_iff gen (xs ++ c ∷ ys)).0 p)

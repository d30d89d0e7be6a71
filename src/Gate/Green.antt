-- ===== src/Gate/Green.antt =====
-- When `report_ok` is green, in terms of the lists of the census alone.
use fs_quint.Base.{
  ◌≡◌, refl, ◌≢◌, ◌↔◌, Bool, true, not, ◌&&◌, List, [], ◌∷◌, All, all, select, arith,
}
use fs_quint.Base.Text.{Text, same_iff, member, same_set, empty, strip}
use fs_quint.Gate.{ok, code}
use fs_quint.Gate.Census.{
  SubjectCensus, unresolved, unexamined_producers, complete, report_ok, Has, IsComplete,
}

pub member_iff : (s : Text) (xs : List Text) → (member s xs ≡ true) ↔ Has s xs
unfolding member
member_iff s [] = ((λ h. cc), (λ h. absurd h))
member_iff s (x ∷ xs) = ground (arith, same_iff s x, member_iff s xs)

all-member : (ys xs : List Text) → (all (λ x. member x ys) xs ≡ true) ↔ All (λ s. Has s ys) xs
all-member ys [] = ((λ h. tt), (λ h. refl))
all-member ys (x ∷ xs) = ground (arith, member_iff x ys, all-member ys xs)

empty-select : (p : Text → Bool) (xs : List Text) → empty (select (λ s. not (p s)) xs) ≡ all p xs
empty-select p [] = refl
empty-select p (x ∷ xs) = ground (arith, empty-select p xs)

empty_iff : (xs : List Text) → (not (empty xs) ≡ true) ↔ (xs ≢ [])
empty_iff [] = ((λ h. cc), (λ h. absurd (h refl)))
empty_iff (x ∷ xs) = ((λ h p. cc), (λ h. refl))

blank_iff : (s : Text) → (not (empty s) ≡ true) ↔ (s ≢ [])
blank_iff [] = ((λ h. cc), (λ h. absurd (h refl)))
blank_iff (c ∷ s) = ((λ h p. cc), (λ h. refl))

resolved-all :
    (c : SubjectCensus) → empty (unresolved c) ≡ all (λ s. member s c.resolved) c.declared
unfolding unresolved
resolved-all c = empty-select (λ s. member s c.resolved) c.declared

examined-all :
    (c : SubjectCensus)
    → empty (unexamined_producers c) ≡ all (λ s. member s c.examined) c.producers
unfolding unexamined_producers
examined-all c = empty-select (λ s. member s c.examined) c.producers

same_set-all :
    (xs ys : List Text) → same_set xs ys ≡ (all (λ x. member x ys) xs && all (λ y. member y xs) ys)
unfolding same_set
same_set-all xs ys = refl

not-nil-of-All : (xs ys : List Text) → xs ≢ [] → All (λ s. Has s ys) xs → ys ≢ []
not-nil-of-All [] ys h a = absurd (h refl)
not-nil-of-All (x ∷ xs) [] h a = absurd a.0
not-nil-of-All (x ∷ xs) (y ∷ ys) h a = λ p. cc

complete_iff : (c : SubjectCensus) → (complete c ≡ true) ↔ IsComplete c
unfolding complete
complete_iff c = ground (
  arith,
  empty_iff c.declared,
  empty_iff c.resolved,
  empty_iff c.examined,
  empty_iff c.producers,
  blank_iff (strip c.authority_revision),
  blank_iff (strip c.authority_digest),
  resolved-all c,
  examined-all c,
  same_set-all c.resolved c.declared,
  all-member c.resolved c.declared,
  all-member c.examined c.producers,
  all-member c.declared c.resolved,
  not-nil-of-All c.declared c.resolved,
)

-- `report_ok` returns 0 exactly when the declaration, the examination and the producers are not
-- empty, revision and digest are not blank, every declared subject was resolved and every resolved
-- one declared, and every producer was examined.
pub report_ok-IsComplete : (c : SubjectCensus) → (report_ok c ≡ code ok) ↔ IsComplete c
unfolding report_ok code
report_ok-IsComplete c = ground (arith, complete_iff c)

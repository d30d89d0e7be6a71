-- ===== src/Usage/Tally/Finals.antt =====
-- A turn's usage is the sum over the records that no later record of the same response corrects.
use fs_quint.Base.{
  ◌≡◌, refl, sym, ap, ◌∙◌, subst, arith, Bool, true, false, List, [], ◌∷◌, any, Bool-cases, inl,
  inr, if◌then◌else◌,
}
use fs_quint.Base.Text.{Text, same, same_iff}
use fs_quint.Usage.{Counts}
use fs_quint.Usage.Rollout.{Observed}
use fs_quint.Usage.Tally.{Response, put, responses_from, plus, no_usage, sum, tally}

-- A record of the response is in the list.
unfoldable pub recurs : Text → List Observed → Bool
unfolding same
recurs id os = any (λ o. same o.response id) os

-- The sum over the records without a later one of the same response.
unfoldable pub finals : List Observed → Counts
unfolding recurs plus
finals [] = no_usage
finals (o ∷ os) = let rest = finals os in if recurs o.response os then rest else plus o.usage rest

-- The sum over the responses that no record of the list is about.
kept : List Response → List Observed → Counts
unfolding recurs plus
kept [] os = no_usage
kept (r ∷ rs) os = let rest = kept rs os in if recurs r.id os then rest else plus r.usage rest

-- No response has the id.
Absent : Text → List Response → Type 0
Absent id [] = Unit
Absent id (r ∷ rs) = (same r.id id ≡ false) × Absent id rs

Distinct : List Response → Type 0
Distinct [] = Unit
Distinct (r ∷ rs) = Absent r.id rs × Distinct rs

-- The contribution of new counters for an id.
share : Text → Counts → List Observed → Counts
share id c os = if recurs id os then no_usage else c

plus_none : (a : Counts) → plus no_usage a ≡ a
unfolding plus
plus_none a = ground arith

plus_swap : (a b c : Counts) → plus a (plus b c) ≡ plus b (plus a c)
unfolding plus
plus_swap a b c = ground arith

plus_assoc : (a b c : Counts) → plus (plus a b) c ≡ plus a (plus b c)
unfolding plus
plus_assoc a b c = ground arith

plus_none_right : (a : Counts) → plus a no_usage ≡ a
unfolding plus
plus_none_right a = ground arith

same_flip : (s t : Text) → same s t ≡ false → same t s ≡ false
same_flip s t h = elim (Bool-cases (same t s)) [
  | inr n ↦ n
  | inl y ↦ absurd (ground (arith, h, (same_iff s t).1 (sym ((same_iff t s).0 y))))
]

-- A record of an id that no response has does not matter.
kept-Absent :
    (rs : List Response) (o : Observed) (os : List Observed)
    → Absent o.response rs
    → kept rs (o ∷ os) ≡ kept rs os
unfolding kept recurs Absent
kept-Absent [] o os a = refl
kept-Absent (r ∷ rs) o os a = rw (same_flip r.id o.response a.0, kept-Absent rs o os a.1) refl

put-Absent :
    (x id : Text) (c : Counts) (rs : List Response)
    → same id x ≡ false
    → Absent x rs
    → Absent x (put id c rs)
unfolding put Absent
put-Absent x id c [] h a = (h, tt)
put-Absent x id c (r ∷ rs) h a = elim (Bool-cases (same r.id id)) [
  | inl y ↦ rw y a
  | inr n ↦ rw n (a.0, put-Absent x id c rs h a.1)
]

put-Distinct : (id : Text) (c : Counts) (rs : List Response) → Distinct rs → Distinct (put id c rs)
unfolding put Distinct Absent
put-Distinct id c [] d = (tt, tt)
put-Distinct id c (r ∷ rs) d = elim (Bool-cases (same r.id id)) [
  | inl y ↦ rw y d
  | inr n ↦ rw n (put-Absent r.id id c rs (same_flip r.id id n) d.0, put-Distinct id c rs d.1)
]

-- New counters for an id take the place of the old ones.
kept-put :
    (o : Observed) (os : List Observed) (rs : List Response)
    → Distinct rs
    → kept (put o.response o.usage rs) os ≡ plus (share o.response o.usage os) (kept rs (o ∷ os))
unfolding put kept share recurs Distinct
kept-put o os [] d = elim (Bool-cases (recurs o.response os)) [
  | inl y ↦ rw y (sym (plus_none no_usage))
  | inr n ↦ rw n refl
]
kept-put o os (r ∷ rs) d = elim (Bool-cases (same r.id o.response)) [
  | inl y ↦ replaced y ((same_iff r.id o.response).0 y)
  | inr n ↦ elim (Bool-cases (recurs r.id os)) [
    | inl y ↦ rw (n, same_flip r.id o.response n, y, kept-put o os rs d.1) refl
    | inr m ↦
        rw (n, same_flip r.id o.response n, m, kept-put o os rs d.1)
          (plus_swap r.usage (share o.response o.usage os) (kept rs (o ∷ os)))
  ]
]
  where
    replaced :
        same r.id o.response ≡ true
        → r.id ≡ o.response
        → kept (put o.response o.usage (r ∷ rs)) os
          ≡ plus (share o.response o.usage os) (kept (r ∷ rs) (o ∷ os))
    replaced y e = elim (Bool-cases (recurs o.response os)) [
      | inl z ↦
          rw
            (
              y,
              e,
              (same_iff o.response o.response).1 refl,
              z,
              kept-Absent rs o os (subst (λ x. Absent x rs) e d.0),
            )
            (sym (plus_none (kept rs os)))
      | inr z ↦
          rw
            (
              y,
              e,
              (same_iff o.response o.response).1 refl,
              z,
              kept-Absent rs o os (subst (λ x. Absent x rs) e d.0),
            )
            refl
    ]

kept-nil : (rs : List Response) → kept rs [] ≡ sum rs
unfolding kept recurs sum
kept-nil [] = refl
kept-nil (r ∷ rs) = ap (plus r.usage) (kept-nil rs)

sum-responses_from :
    (rs : List Response) (os : List Observed)
    → Distinct rs
    → sum (responses_from rs os) ≡ plus (finals os) (kept rs os)
unfolding responses_from finals share
sum-responses_from rs [] d = sym (kept-nil rs) ∙ sym (plus_none (kept rs []))
sum-responses_from rs (o ∷ os) d =
    sum-responses_from (put o.response o.usage rs) os (put-Distinct o.response o.usage rs d)
    ∙ (ap (plus (finals os)) (kept-put o os rs d) ∙ moved)
  where
    moved :
        plus (finals os) (plus (share o.response o.usage os) (kept rs (o ∷ os)))
        ≡ plus
            (if recurs o.response os then finals os else plus o.usage (finals os))
            (kept rs (o ∷ os))
    moved = elim (Bool-cases (recurs o.response os)) [
      | inl y ↦ rw y (ap (plus (finals os)) (plus_none (kept rs (o ∷ os))))
      | inr n ↦ rw n (
          plus_swap (finals os) o.usage (kept rs (o ∷ os))
          ∙ sym (plus_assoc o.usage (finals os) (kept rs (o ∷ os))))
    ]

-- The usage that is tallied for a turn is the sum over its records without those that a later
-- record of the same response corrects.
pub tally-finals : (os : List Observed) → tally os ≡ finals os
unfolding tally kept Distinct
tally-finals os = sum-responses_from [] os tt ∙ plus_none_right (finals os)

-- ===== src/Claim/Verdict/Passes.antt =====
-- When the gate passes, in terms of the marker of the body and the claims of the item.
use fs_quint.Host.Results.{Result-cases}
use fs_quint.Claim.State.{read_claim_state, clock, claim_state}
use fs_quint.Claim.State.Order.{Describes, claim_state-Describes}
use fs_quint.Claim.Transport.{gh_api}
use fs_quint.Claim.Comments.{decoded, read_claims}
use fs_quint.Base.{◌++◌}
use fs_quint.Base.Text.Decimal.{show_int}
use fs_quint.Host.{Datetime, lift, pure}
use fs_quint.Host.Actions.{>>=-value}
use fs_quint.Host.Results.{value-injective}
use fs_quint.Claim.Verdict.{no_such_item}
use fs_quint.Base.{subst}
use fs_quint.Claim.Verdict.{Finding, evaluate}
use fs_quint.Base.{
  ◌≡◌, refl, sym, ap, ◌∙◌, ◌↔◌, ◌⊎◌, inl, inr, true, none, some, List, [], ◌∷◌, arith, Option-cases,
}
use fs_quint.Base.Text.{Text, codes, same_iff, lower}
use fs_quint.Host.{World, Env, value}
use fs_quint.Host.Value.{show_number}
use fs_quint.Claim.Marker.{Dict, get, find_authorizations}
use fs_quint.Claim.Shape.{is_gen, is_item}
use fs_quint.Claim.Comments.{Claimant}
use fs_quint.Claim.State.{ClaimState, held, expired, released}
use fs_quint.Claim.Verdict.{
  Args, Verdict, Checked, refused, authorizes, check_values, check_fields, check_markers, grade,
  classify, judged, supported_version,
}

-- The marker binds a generation to this pull request: its version is supported, its generation and
-- its item have their shapes, it names the head and the item of the branch.
pub record Binds (a : Args) (d : Dict) (gen : Text) : Type 0 where
  pub version : get (codes "v") d ≡ some supported_version
  pub generation : get (codes "gen") d ≡ some gen
  pub gen_shape : is_gen gen ≡ true
  pub head : Text
  pub head_field : get (codes "head") d ≡ some head
  pub same_head : lower head ≡ lower a.head_sha
  pub item_field : get (codes "item") d ≡ some a.expected_item
  pub item_shape : is_item a.expected_item ≡ true

check_values-Binds :
    (a : Args) (d : Dict) (v item head gen wanted : Text)
    → get (codes "v") d ≡ some v
    → get (codes "item") d ≡ some item
    → get (codes "gen") d ≡ some gen
    → get (codes "head") d ≡ some head
    → check_values a d ≡ authorizes wanted
    → Binds a d wanted
unfolding check_values
check_values-Binds a d v item head gen wanted ev ei eg eh h = record {
  version = ground (arith, same_iff v supported_version);
  generation = ground arith;
  gen_shape = ground arith;
  head = head;
  head_field = eh;
  same_head = ground (arith, same_iff (lower head) (lower a.head_sha));
  item_field = ground (arith, same_iff item a.expected_item);
  item_shape = ground (arith, same_iff item a.expected_item);
}

check_fields-Binds :
    (a : Args) (d : Dict) (gen : Text) → check_fields a d ≡ authorizes gen → Binds a d gen
unfolding check_fields
check_fields-Binds a d gen h = elim (Option-cases (get (codes "v") d)) [
  | inl e ↦ absurd (ground arith)
  | inr (v, ev) ↦ elim (Option-cases (get (codes "item") d)) [
    | inl e ↦ absurd (ground arith)
    | inr (item, ei) ↦ elim (Option-cases (get (codes "gen") d)) [
      | inl e ↦ absurd (ground arith)
      | inr (g, eg) ↦ elim (Option-cases (get (codes "head") d)) [
        | inl e ↦ absurd (ground arith)
        | inr (head, eh) ↦
            check_values-Binds a d v item head g gen ev ei eg eh
              (rw (ev, ei, eg, eh, check_fields) at h)
      ]
    ]
  ]
]

Binds-check_fields :
    (a : Args) (d : Dict) (gen : Text) → Binds a d gen → check_fields a d ≡ authorizes gen
unfolding check_fields check_values
Binds-check_fields a d gen b = ground (
  arith,
  same_iff supported_version supported_version,
  same_iff (lower b.head) (lower a.head_sha),
  same_iff a.expected_item a.expected_item,
)

check_markers_iff :
    (a : Args) (ds : List Dict) (gen : Text)
    → (check_markers a ds ≡ authorizes gen) ↔ ((d : Dict) × (ds ≡ d ∷ []) × Binds a d gen)
unfolding check_markers
check_markers_iff a [] gen = ((λ h. absurd (ground arith)), λ (d, e, b). absurd (ground arith))
check_markers_iff a (d ∷ []) gen = (
  (λ h. (d, refl, check_fields-Binds a d gen h)),
  λ (c, e, b). Binds-check_fields a d gen (subst (λ x. Binds a x gen) {x = c} (cc) b),
)
check_markers_iff a (d ∷ e ∷ ds) gen =
    ((λ h. absurd (ground arith)), λ (c, q, b). absurd (ground arith))

Checked-cases :
    (k : Checked) → ((f : Finding) × (k ≡ refused f)) ⊎ ((gen : Text) × (k ≡ authorizes gen))
Checked-cases (refused f) = inl (f, refl)
Checked-cases (authorizes gen) = inr (gen, refl)

grade_iff :
    (gen : Text) (s : ClaimState)
    → (grade gen s ≡ none) ↔ ((c : Claimant) × (s ≡ held c) × (show_number c.id ≡ gen))
unfolding grade
grade_iff gen released = ((λ h. absurd (ground arith)), λ (c, e, q). absurd (ground arith))
grade_iff gen (expired d) = ((λ h. absurd (ground arith)), λ (c, e, q). absurd (ground arith))
grade_iff gen (held d) = (
  (λ h. (d, refl, ground (arith, same_iff (show_number d.id) gen))),
  λ (c, e, q). ground (arith, same_iff (show_number d.id) gen),
)

-- The command that lists the comments of the item of a pull request.
abbrev pub comments_of : Args → List Text
comments_of a =
    codes "--paginate"
    ∷ codes "--jq"
    ∷ codes ".[] | {id, body, updated_at}"
    ∷ (codes "repos/"
        ++ (a.repo ++ (codes "/issues/" ++ (show_int a.item_number ++ codes "/comments"))))
    ∷ []

-- The claims on that item, as one listing of its comments has them at the time of the clock.
pub record IsListed (env : Env) (a : Args) (w : World) (cs : List Claimant) : Type 0 where
  pub printed : Text
  pub answered : (gh_api env (comments_of a) w).result ≡ value printed
  pub at : Datetime
  pub clocked : (clock env a.now (gh_api env (comments_of a) w).world).result ≡ value at
  pub read :
      read_claims env
        (record { now = at; fallback = a.lease_minutes; cli_override = a.lease_from_cli })
        (decoded env printed)
      ≡ value cs

read_claim_state-IsListed :
    (env : Env) (a : Args) (w : World) (s : ClaimState)
    → (read_claim_state env a.repo a.item_number a.lease_minutes a.lease_from_cli a.now w).result
      ≡ value s
    → (cs : List Claimant) × IsListed env a w cs × (claim_state cs ≡ s)
unfolding read_claim_state
read_claim_state-IsListed env a w s h =
    let (raw, answered, h1) = >>=-value (gh_api env (comments_of a)) _ w s h in
    let (at, clocked, h2) =
      >>=-value (clock env a.now) _ (gh_api env (comments_of a) w).world s h1 in
    let (cs, read, h3) =
      >>=-value
        (lift (
          read_claims env
            (record { now = at; fallback = a.lease_minutes; cli_override = a.lease_from_cli })
            (decoded env raw)))
        (λ cs. pure (claim_state cs)) _ s h2 in
    (
      cs,
      record { printed = raw; answered = answered; at = at; clocked = clocked; read = read },
      value-injective (claim_state cs) s h3,
    )

-- What a pass rests on: the one marker of the body, and, among the claims that were read on the
-- item, a live one with the lowest id of all that live, whose id is the generation of the marker.
pub record Authorized (env : Env) (a : Args) (body : Text) (w : World) (v : Verdict) : Type 0 where
  pub gen : Text
  pub marker : Dict
  pub only : find_authorizations body ≡ marker ∷ []
  pub binds : Binds a marker gen
  pub claims : List Claimant
  pub listed : IsListed env a w claims
  pub holder : Claimant
  pub lowest : Describes claims (held holder)
  pub state : v.state ≡ some (held holder)
  pub current : show_number holder.id ≡ gen

-- The two ways in which an evaluation whose marker is in order ends with a verdict.
evaluate-graded :
    (env : Env) (a : Args) (body gen : Text) (w : World) (v : Verdict)
    → (evaluate env a body w).result ≡ value v
    → check_markers a (find_authorizations body) ≡ authorizes gen
    → ((s : ClaimState) × (v.finding ≡ grade gen s)
        × (v.state ≡ some s)
        × ((read_claim_state env a.repo a.item_number a.lease_minutes a.lease_from_cli a.now
              w).result
            ≡ value s))
      ⊎ ((v.finding ≡ some no_such_item) × (v.state ≡ none))
unfolding evaluate classify judged
evaluate-graded env a body gen w v h e =
    elim (Result-cases
      (read_claim_state env a.repo a.item_number a.lease_minutes a.lease_from_cli a.now w).result) [
        | inl (s, q) ↦ inl (s, ground arith, ground arith, q)
        | inr (x, q) ↦ ground arith
      ]

evaluate-refused :
    (env : Env) (a : Args) (body : Text) (w : World) (v : Verdict) (f : Finding)
    → (evaluate env a body w).result ≡ value v
    → check_markers a (find_authorizations body) ≡ refused f
    → v.finding ≡ some f
unfolding evaluate classify judged
evaluate-refused env a body w v f h e = ground arith

-- An evaluation that ends with a verdict passes exactly when the body carries one authorization
-- marker, it names the supported version, a generation, the head and the item of this pull request,
-- and of the claims that the comments of the item carry the live one with the lowest id has that
-- generation as its id.
pub evaluate-passes :
    (env : Env) (a : Args) (body : Text) (w : World) (v : Verdict)
    → (evaluate env a body w).result ≡ value v
    → (v.finding ≡ none) ↔ Authorized env a body w v
evaluate-passes env a body w v h = (passes (Checked-cases (check_markers a marks)), refuses)
  where
    marks : List Dict
    marks = find_authorizations body

    named : (z : Authorized env a body w v) → check_markers a marks ≡ authorizes z.gen
    named z = (check_markers_iff a marks z.gen).1 (z.marker, z.only, z.binds)

    passes :
        ((f : Finding) × (check_markers a marks ≡ refused f))
          ⊎ ((gen : Text) × (check_markers a marks ≡ authorizes gen))
        → v.finding ≡ none
        → Authorized env a body w v
    passes (inl (f, e)) p = absurd (ground (arith, evaluate-refused env a body w v f h e))
    passes (inr (gen, e)) p = elim (evaluate-graded env a body gen w v h e) [
      | inr (q, n) ↦ absurd (ground arith)
      | inl (s, q, t, r) ↦
          let (d, only, binds) = (check_markers_iff a marks gen).0 e in
          let (c, held_by, current) = (grade_iff gen s).0 (sym q ∙ p) in
          let (cs, listed, found) = read_claim_state-IsListed env a w s r in
          record {
            gen = gen;
            marker = d;
            only = only;
            binds = binds;
            claims = cs;
            listed = listed;
            holder = c;
            lowest = subst (Describes cs) (found ∙ held_by) (claim_state-Describes cs);
            state = t ∙ ap some held_by;
            current = current;
          }
    ]

    refuses : Authorized env a body w v → v.finding ≡ none
    refuses z = elim (evaluate-graded env a body z.gen w v h (named z)) [
      | inr (q, n) ↦ absurd (ground (arith, z.state))
      | inl (s, q, t, r) ↦ q ∙ (grade_iff z.gen s).1 (z.holder, ground (arith, z.state), z.current)
    ]

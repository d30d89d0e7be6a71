-- ===== src/Usage/Consistent.antt =====
-- The counters that `collect` gives are consistent.
pub mod Collected
use fs_quint.Base.{
  ◌≡◌, refl, sym, ap, ◌∙◌, subst, arith, ℕ, suc, ◌+◌, ◌≤◌, ltb, ◌==◌, ◌&&◌, not, ◌||◌, Bool, true,
  false, Option, none, some, List, [], ◌∷◌, ◌++◌, All, select, Bool-cases, inl, inr, if◌then◌else◌,
}
use fs_quint.Base.Text.{Text, codes, same}
use fs_quint.Host.Value.{Json, null, bool, int, float, str, arr, obj, Fields, get_or_null, is_text}
use fs_quint.Host.Value.Equality.{same_json}
use fs_quint.Usage.{
  Fault, host_unavailable, Counts, counts, counter, check_counts, Tried, done, threw, crash, ◌>>=◌,
}
use fs_quint.Usage.Server.{Codex, Ask, Request, request, open_server}
use fs_quint.Usage.Inversion.{done-injective, threw-done, >>=-done, if-done, ask-done}
use fs_quint.Usage.Rollout.{
  Observed, read_payload, read_row, read_lines, rollout_usage, is_record, known_turn, response_id,
}
use fs_quint.Usage.Tally.{tally, same_counts, last_total, turn_usage, of_turn}
use fs_quint.Usage.Turns.{
  TurnUsage, Native, native_of, assembled, survey, turn_of, usage_of, is_known, has_ended, turn_ids,
  path_text,
}
use fs_quint.Usage.Child.{is_uuid, is_native_id, thread_id}
use fs_quint.Usage.Pages.{page}
use fs_quint.Usage.Collect.{
  collect, the_match, with_thread, assemble, matches, turns_params, children_params,
}

-- The subsets are within their counts, and the total is input plus output.
pub record IsConsistent (c : Counts) : Type 0 where
  pub cached : c.cached ≤ c.input
  pub reasoning : c.reasoning ≤ c.output
  pub total : c.input + c.output ≡ c.total

check_counts-IsConsistent : (c d : Counts) → check_counts c ≡ done d → IsConsistent d
unfolding check_counts
check_counts-IsConsistent c d h = elim (Bool-cases (ltb c.input c.cached)) [
  | inl y ↦ absurd (ground (arith, h, y))
  | inr n ↦ elim (Bool-cases (ltb c.output c.reasoning)) [
    | inl y ↦ absurd (ground (arith, h, n, y))
    | inr m ↦ elim (Bool-cases (c.input + c.output == c.total)) [
      | inr x ↦ absurd (ground (arith, h, n, m, x))
      | inl z ↦ subst IsConsistent (done-injective c d (kept n m z)) (record {
        cached = ground (arith, n);
        reasoning = ground (arith, m);
        total = ground (arith, z);
      })
    ]
  ]
]
  where
    kept :
        ltb c.input c.cached ≡ false
        → ltb c.output c.reasoning ≡ false
        → (c.input + c.output == c.total) ≡ true
        → done c ≡ done d
    kept n m z = ground (arith, h, n, m, z)

pub counts-IsConsistent : (v : Json) (c : Counts) → counts v ≡ done c → IsConsistent c
unfolding counts
counts-IsConsistent (obj fs) c h =
    let (i, e₁, h₁) = >>=-done (counter (codes "input_tokens") fs) _ c h in
    let (a, e₂, h₂) = >>=-done (counter (codes "cached_input_tokens") fs) _ c h₁ in
    let (o, e₃, h₃) = >>=-done (counter (codes "output_tokens") fs) _ c h₂ in
    let (r, e₄, h₄) = >>=-done (counter (codes "reasoning_output_tokens") fs) _ c h₃ in
    let (t, e₅, h₅) = >>=-done (counter (codes "total_tokens") fs) _ c h₄ in
    check_counts-IsConsistent
      (record { input = i; cached = a; output = o; reasoning = r; total = t }) c h₅
counts-IsConsistent null c h = absurd (threw-done host_unavailable c h)
counts-IsConsistent (bool b) c h = absurd (threw-done host_unavailable c h)
counts-IsConsistent (int n) c h = absurd (threw-done host_unavailable c h)
counts-IsConsistent (float t n e) c h = absurd (threw-done host_unavailable c h)
counts-IsConsistent (str t) c h = absurd (threw-done host_unavailable c h)
counts-IsConsistent (arr vs) c h = absurd (threw-done host_unavailable c h)

some-injective : (a b : Counts) → some a ≡ some b → a ≡ b
some-injective a b e = ap (λ o. elim o [ some x ↦ x | none ↦ a ]) e

-- The turn's total of a record is consistent.
pub Valid : Observed → Type 0
Valid o = IsConsistent o.turn_total

read_payload-Valid :
    (thread : Json) (ids : List Text) (fs : Fields) (o : Observed)
    → read_payload thread ids fs ≡ done o
    → Valid o
unfolding read_payload Valid
read_payload-Valid thread ids fs o h =
    let (y, h₀) =
      if-done (same_json (get_or_null (codes "thread_id") fs) thread) _ host_unavailable o h in
    let (t, e₁, h₁) = >>=-done (known_turn ids (get_or_null (codes "turn_id") fs)) _ o h₀ in
    let (r, e₂, h₂) = >>=-done (response_id (get_or_null (codes "response_id") fs)) _ o h₁ in
    let (u, e₃, h₃) = >>=-done (counts (get_or_null (codes "usage") fs)) _ o h₂ in
    let (s, e₄, h₄) = >>=-done (counts (get_or_null (codes "turn_token_usage") fs)) _ o h₃ in
    subst IsConsistent
      (ap (λ x. x.turn_total)
        (done-injective (record { turn = t; response = r; usage = u; turn_total = s }) o h₄))
      (counts-IsConsistent (get_or_null (codes "turn_token_usage") fs) s e₄)

read_row-Valid :
    (thread : Json) (ids : List Text) (v : Option Json) (o : Observed)
    → read_row thread ids v ≡ done o
    → Valid o
unfolding read_row
read_row-Valid thread ids none o h = absurd (threw-done host_unavailable o h)
read_row-Valid thread ids (some (obj fs)) o h =
    let (y, h₁) =
      if-done (is_text (codes "token_usage_record") (get_or_null (codes "type") fs)) _
        host_unavailable o h in
    payload (get_or_null (codes "payload") fs) h₁
  where
    payload :
        (v : Json)
        → elim v [ obj value ↦ read_payload thread ids value | _ ↦ threw host_unavailable ] ≡ done o
        → Valid o
    payload (obj value) k = read_payload-Valid thread ids value o k
    payload null k = absurd (threw-done host_unavailable o k)
    payload (bool b) k = absurd (threw-done host_unavailable o k)
    payload (int n) k = absurd (threw-done host_unavailable o k)
    payload (float t n e) k = absurd (threw-done host_unavailable o k)
    payload (str t) k = absurd (threw-done host_unavailable o k)
    payload (arr vs) k = absurd (threw-done host_unavailable o k)
read_row-Valid thread ids (some null) o h = absurd (threw-done crash o h)
read_row-Valid thread ids (some (bool b)) o h = absurd (threw-done crash o h)
read_row-Valid thread ids (some (int n)) o h = absurd (threw-done crash o h)
read_row-Valid thread ids (some (float t n e)) o h = absurd (threw-done crash o h)
read_row-Valid thread ids (some (str t)) o h = absurd (threw-done crash o h)
read_row-Valid thread ids (some (arr vs)) o h = absurd (threw-done crash o h)

pub Valid-lines :
    (codex : Codex) (thread : Json) (ids : List Text) (ls : List Text) (os : List Observed)
    → read_lines codex thread ids ls ≡ done os
    → All Valid os
unfolding read_lines
Valid-lines codex thread ids [] os h = subst (All Valid) (done-injective [] os h) tt
Valid-lines codex thread ids (l ∷ ls) os h = elim (Bool-cases (is_record l)) [
  | inr n ↦ Valid-lines codex thread ids ls os (ground (arith, h, n))
  | inl y ↦
      let (o, e, h₁) = >>=-done (read_row thread ids (codex.loads_bytes l)) _ os (chosen y) in
      let (rest, f, h₂) = >>=-done (read_lines codex thread ids ls) _ os h₁ in
      subst (All Valid) (done-injective (o ∷ rest) os h₂) (
        read_row-Valid thread ids (codex.loads_bytes l) o e,
        Valid-lines codex thread ids ls rest f,
      )
]
  where
    chosen :
        is_record l ≡ true
        → (read_row thread ids (codex.loads_bytes l) >>= λ r.
            read_lines codex thread ids ls >>= λ rs. done (r ∷ rs))
          ≡ done os
    chosen y = ground (arith, h, y)

last_total-IsConsistent :
    (os : List Observed) (c : Counts) → All Valid os → last_total os ≡ some c → IsConsistent c
unfolding last_total Valid
last_total-IsConsistent [] c v h = absurd (ground (arith, h))
last_total-IsConsistent (o ∷ []) c v h = subst IsConsistent (some-injective o.turn_total c h) v.0
last_total-IsConsistent (o ∷ p ∷ os) c v h = last_total-IsConsistent (p ∷ os) c v.1 h

same_counts-IsConsistent : (a b : Counts) → same_counts a b ≡ true → IsConsistent b → IsConsistent a
unfolding same_counts
same_counts-IsConsistent a b h c = ground (arith, h, c)

turn_usage-IsConsistent :
    (os : List Observed) (c : Counts) → All Valid os → turn_usage os ≡ some c → IsConsistent c
unfolding turn_usage
turn_usage-IsConsistent os c v h = total (last_total os) refl h
  where
    agreed :
        (t : Counts) (b : Bool)
        → same_counts (tally os) t ≡ b
        → IsConsistent t
        → (if b then some (tally os) else none) ≡ some c
        → IsConsistent c
    agreed t true e i k =
        subst IsConsistent (some-injective (tally os) c k)
          (same_counts-IsConsistent (tally os) t e i)
    agreed t false e i k = absurd (ground (arith, k))

    total :
        (o : Option Counts)
        → last_total os ≡ o
        → elim o [
          | none ↦ none
          | some t ↦ if same_counts (tally os) t then some (tally os) else none
        ]
          ≡ some c
        → IsConsistent c
    total none e k = absurd (ground (arith, k))
    total (some t) e k =
        agreed t (same_counts (tally os) t) refl (last_total-IsConsistent os t v e) k

All-of_turn : (id : Text) (os : List Observed) → All Valid os → All Valid (of_turn id os)
unfolding of_turn
All-of_turn id [] v = tt
All-of_turn id (o ∷ os) v = elim (Bool-cases (same o.turn id)) [
  | inl y ↦ rw y (v.0, All-of_turn id os v.1)
  | inr n ↦ rw n (All-of_turn id os v.1)
]

-- The turns that are told have consistent counters.
unfoldable pub AllConsistent : List TurnUsage → Type 0
AllConsistent ts = All (λ t. IsConsistent t.usage) ts

pub turn_of-AllConsistent :
    (n : ℕ) (id : Text) (o : Option Counts) (ts : List TurnUsage)
    → ((c : Counts) → o ≡ some c → IsConsistent c)
    → AllConsistent ts
    → AllConsistent (turn_of n id o ts)
unfolding turn_of AllConsistent
turn_of-AllConsistent n id none ts k a = a
turn_of-AllConsistent n id (some c) ts k a = (k c refl, a)

pub usage_of-IsConsistent :
    (os : List Observed) (id : Text) (b : Bool) (c : Counts)
    → All Valid os
    → usage_of os id b ≡ some c
    → IsConsistent c
unfolding usage_of
usage_of-IsConsistent os id true c v h =
    turn_usage-IsConsistent (of_turn id os) c (All-of_turn id os v) h
usage_of-IsConsistent os id false c v h = absurd (ground (arith, h))

-- ===== src/Usage/Pages/Bounds.antt =====
-- `page` asks ten times at most and gives a thousand rows at most.
use fs_quint.Base.{
  ◌≡◌, refl, ap, subst, arith, ℕ, zero, suc, ◌+◌, ◌≤◌, ltb, length, Option, none, some, List, [],
  ◌∷◌, ◌++◌, Bool-cases, inl, inr,
}
use fs_quint.Base.Text.{Text, codes}
use fs_quint.Usage.Inversion.{>>=-done, done-injective}
use fs_quint.Host.Value.{Fields, get_or_null}
use fs_quint.Usage.{Tried, done, threw}
use fs_quint.Usage.Rows.{read_page, within_bound, max_rows, rows_of, next_of, paged}
use fs_quint.Usage.Server.{Codex, Request, receive, pure, lift, request, proceed, ◌>>=◌}
use fs_quint.Usage.Pages.{pages, page}

-- The rows of a result, if there is one, are not more than that.
abbrev pub Bounded : ℕ → Tried (List Fields) → Type 0
Bounded n (done rows) = length rows ≤ n
Bounded n (threw f) = Unit

within_bound-≤ :
    (rows total : List Fields) → within_bound rows ≡ done total → length total ≤ max_rows
unfolding within_bound
within_bound-≤ rows total h = elim (Bool-cases (ltb max_rows (length rows))) [
  | inl y ↦ absurd (ground (arith, h, y))
  | inr n ↦ ground (arith, h, n)
]

read_page-≤ :
    (cursor : Option Text) (rows : List Fields) (result : Fields) (total : List Fields)
    (next : Option Text)
    → read_page cursor rows result ≡ done (total, next)
    → length total ≤ max_rows
unfolding read_page
read_page-≤ cursor rows result total next h =
    let (found, e, h₁) = >>=-done (rows_of (get_or_null (codes "data") result)) _ (total, next) h in
    let (all, f, h₂) = >>=-done (within_bound (rows ++ found)) _ (total, next) h₁ in
    let (n, g, h₃) =
      >>=-done (next_of cursor (get_or_null (codes "nextCursor") result)) _ (total, next) h₂ in
    subst (λ t. length t ≤ max_rows) (ap (λ p. p.0) (done-injective (all, n) (total, next) h₃))
      (within_bound-≤ (rows ++ found) all f)

-- What a listing leaves: few more requests, and few rows.
pub record Brief (left : ℕ) (w v : List Request) (r : Tried (List Fields)) : Type 0 where
  pub requests : length v ≤ left + length w
  pub rows : Bounded max_rows r

module _ (codex : Codex) (method : Text) (params : Fields) where
  step-Brief :
      (left id : ℕ) (rows : List Fields) (w v : List Request)
      (r : Tried (List Fields × Option Text))
      → length v ≤ suc (length w)
      → ((total : List Fields) (next : Option Text)
          → r ≡ done (total, next)
          → length total ≤ max_rows)
      → ((c : Text) (total : List Fields)
          → Brief left v
              (pages codex method params left (suc id) (some c) total v).asked
              (pages codex method params left (suc id) (some c) total v).result)
      → Brief
          (suc left)
          w
          (proceed r
            (λ p. elim p.1 [
              | none ↦ pure p.0
              | some c ↦ pages codex method params left (suc id) (some c) p.0
            ])
            v).asked
          (proceed r
            (λ p. elim p.1 [
              | none ↦ pure p.0
              | some c ↦ pages codex method params left (suc id) (some c) p.0
            ])
            v).result
  step-Brief left id rows w v (threw f) a b k = record { requests = omega (arith, a); rows = tt }
  step-Brief left id rows w v (done (total, none)) a b k = record {
    requests = omega (arith, a);
    rows = b total none refl;
  }
  step-Brief left id rows w v (done (total, some c)) a b k = record {
    requests = omega (arith, a, (k c total).requests);
    rows = (k c total).rows;
  }

  received-Brief :
      (left id : ℕ) (cursor : Option Text) (rows : List Fields) (w v : List Request)
      (r : Tried Fields)
      → length v ≤ suc (length w)
      → ((c : Text) (total : List Fields)
          → Brief left v
              (pages codex method params left (suc id) (some c) total v).asked
              (pages codex method params left (suc id) (some c) total v).result)
      → Brief
          (suc left)
          w
          (proceed r
            (λ result. lift (read_page cursor rows result) >>= λ p. elim p.1 [
              | none ↦ pure p.0
              | some c ↦ pages codex method params left (suc id) (some c) p.0
            ])
            v).asked
          (proceed r
            (λ result. lift (read_page cursor rows result) >>= λ p. elim p.1 [
              | none ↦ pure p.0
              | some c ↦ pages codex method params left (suc id) (some c) p.0
            ])
            v).result
  received-Brief left id cursor rows w v (threw f) a k = record {
    requests = omega (arith, a);
    rows = tt;
  }
  received-Brief left id cursor rows w v (done result) a k =
      step-Brief left id rows w v (read_page cursor rows result) a
        (λ total next e. read_page-≤ cursor rows result total next e) k

  pages-Brief :
      (left id : ℕ) (cursor : Option Text) (rows : List Fields) (w : List Request)
      → Brief left w
          (pages codex method params left id cursor rows w).asked
          (pages codex method params left id cursor rows w).result
  unfolding pages request
  pages-Brief zero id cursor rows w = record { requests = omega arith; rows = tt }
  pages-Brief (suc left) id cursor rows w =
      let asked = record { id = id; method = method; params = paged params cursor } ∷ w in
      received-Brief left id cursor rows w asked (receive codex id (codex.exchange asked))
        (omega arith) (λ c total. pages-Brief left (suc id) (some c) total asked)

-- A listing asks at most ten times, and the rows that it gives are at most a thousand.
pub page-Brief :
    (codex : Codex) (method : Text) (params : Fields) (id : ℕ) (w : List Request)
    → Brief 10 w (page codex method params id w).asked (page codex method params id w).result
unfolding page
page-Brief codex method params id w = pages-Brief codex method params 10 id none [] w

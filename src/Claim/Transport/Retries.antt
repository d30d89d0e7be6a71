-- ===== src/Claim/Transport/Retries.antt =====
-- How often `gh_api` calls the command, and which answer it gives on.
use fs_quint.Claim.Transport.{respond}
use fs_quint.Base.{
  ℕ, zero, suc, ◌+◌, ◌≤◌, ◌<◌, ◌≡◌, refl, ◌⊎◌, inl, inr, none, List, [], ◌∷◌, arith,
}
use fs_quint.Base.Text.{Text, codes}
use fs_quint.Host.{Exception, Result, value, raised, ran, slept, World, Env}
use fs_quint.Claim.Transport.{Reply, answered, refused, again, reply, gh_attempts, gh_api}

-- What the last answer makes of the whole call.
unfoldable pub settled : Reply → Result Text
settled (answered out) = value out
settled (refused e) = raised e
settled (again e) = raised e

-- The commands in a log.
unfoldable pub calls : World → ℕ
calls [] = 0
calls (ran argv input ∷ w) = suc (calls w)
calls (slept k ∷ w) = calls w

Reply-cases :
    (r : Reply)
    → ((out : Text) × (r ≡ answered out))
      ⊎ ((e : Exception) × (r ≡ refused e))
      ⊎ ((e : Exception) × (r ≡ again e))
Reply-cases (answered out) = inl (out, refl)
Reply-cases (refused e) = inr (inl (e, refl))
Reply-cases (again e) = inr (inr (e, refl))

-- How a call with some attempts left ends: by its last command, whose answer it gives on, within
-- the attempts, and short of them only if no retry can help.
pub record Settles (env : Env) (argv : List Text) (left : ℕ) (w v : World) (r : Result Text)
    : Type 0 where
  pub before : World
  pub last : v ≡ ran argv none ∷ before
  pub answer : r ≡ settled (reply (env.proc before argv none))
  pub within : calls v ≤ calls w + left
  pub some_call : calls w < calls v
  pub persists :
      (e : Exception) → reply (env.proc before argv none) ≡ again e → calls v ≡ calls w + left

last-Settles :
    (env : Env) (argv : List Text) (left : ℕ) (w : World) (r : Result Text)
    → r ≡ settled (reply (env.proc w argv none))
    → ((e : Exception) → reply (env.proc w argv none) ≡ again e → left ≡ 0)
    → Settles env argv (suc left) w (ran argv none ∷ w) r
unfolding calls
last-Settles env argv left w r a p = record {
  before = w;
  last = refl;
  answer = a;
  within = omega arith;
  some_call = omega arith;
  persists = λ e h. omega (arith, p e h);
}

retry-Settles :
    (env : Env) (argv : List Text) (n k : ℕ) (w v : World) (r : Result Text)
    → Settles env argv n (slept k ∷ ran argv none ∷ w) v r
    → Settles env argv (suc n) w v r
unfolding calls
retry-Settles env argv n k w v r s = record {
  before = s.before;
  last = s.last;
  answer = s.answer;
  within = omega (arith, s.within);
  some_call = omega (arith, s.some_call);
  persists = λ e h. omega (arith, s.persists e h);
}

gh_attempts-Settles :
    (env : Env) (argv : List Text) (left k : ℕ) (w : World)
    → let done = gh_attempts env argv (suc left) k w in
      Settles env argv (suc left) w done.world done.result
unfolding gh_attempts respond
gh_attempts-Settles env argv zero k w = elim (Reply-cases (reply (env.proc w argv none))) [
  | inl (out, e) ↦
      rw e (last-Settles env argv 0 w (value out) (unfold settled in rw e) (λ x h. refl))
  | inr (inl (x, e)) ↦
      rw e (last-Settles env argv 0 w (raised x) (unfold settled in rw e) (λ y h. refl))
  | inr (inr (x, e)) ↦
      rw e (last-Settles env argv 0 w (raised x) (unfold settled in rw e) (λ y h. refl))
]
gh_attempts-Settles env argv (suc left) k w = elim (Reply-cases (reply (env.proc w argv none))) [
  | inl (out, e) ↦ rw e (
      last-Settles env argv (suc left) w (value out) (unfold settled in rw e)
        (λ x h. absurd (ground arith)))
  | inr (inl (x, e)) ↦ rw e (
      last-Settles env argv (suc left) w (raised x) (unfold settled in rw e)
        (λ y h. absurd (ground arith)))
  | inr (inr (x, e)) ↦ rw e (
      retry-Settles env argv (suc left) k w _ _
        (gh_attempts-Settles env argv left (k + 1) (slept k ∷ ran argv none ∷ w)))
]

-- `gh_api` with at least one attempt gives on the answer of the last command that it ran, as a text,
-- as the exception of a definite refusal, or as the one of an answer that it would retry. It runs at
-- least one command and at most as many as it has attempts, and it has used all of them where the
-- last answer is one that it would retry.
pub gh_api-Settles :
    (env : Env) (args : List Text) (w : World) (left : ℕ)
    → env.gh_tries ≡ suc left
    → let done = gh_api env args w in
      Settles env (codes "gh" ∷ codes "api" ∷ args) env.gh_tries w done.world done.result
unfolding gh_api
gh_api-Settles env args w left h =
    simp h (gh_attempts-Settles env (codes "gh" ∷ codes "api" ∷ args) left 0 w)

-- ===== src/Claim/Transport.antt =====
-- check-claim-generation.py `gh_api` and `gh_api_post`: the GitHub API through the `gh` command.
pub mod Reading
pub mod Retries
use fs_quint.Base.{
  ℕ, zero, suc, ◌+◌, pos, Bool, ◌||◌, Option, none, some, List, [], ◌∷◌, ◌++◌, eqb_ℤ, if◌then◌else◌,
}
use fs_quint.Base.Text.{Text, codes, contains, squeeze}
use fs_quint.Host.{
  Exception, unreachable, missing, forbidden, crash, Proc, not_started, timed_out, exited, Env,
  Exec, pure, raise, ◌>>=◌, ◌>>◌, execute, pause,
}
use fs_quint.Host.Value.{Json}

-- What an answer of `gh` means: the text, an exception at once, or one that a retry may cure.
pub data Reply : Type 0 where
  answered : Text → Reply
  refused again : Exception → Reply

-- The tests on the standard error after its white space is squeezed: `\(HTTP 404\)`, then
-- `\(HTTP 40[13]\)`.
refusal : Text → Option Exception
unfolding squeeze contains
refusal stderr =
    let err = squeeze stderr in
    if contains (codes "(HTTP 404)") err
    then some missing
    else if contains (codes "(HTTP 401)") err || contains (codes "(HTTP 403)") err
    then some forbidden
    else none

unfoldable pub reply : Proc → Reply
unfolding refusal
reply not_started = refused crash
reply timed_out = again unreachable
reply (exited status out err) =
    if eqb_ℤ status (pos 0)
    then answered out
    else elim (refusal err) [ some e ↦ refused e | none ↦ again unreachable ]

-- What an attempt does with its answer when so many are left; `retry` is the pause and the next one.
unfoldable pub respond : Reply → ℕ → Exec Text → Exec Text
respond (answered out) left retry = pure out
respond (refused e) left retry = raise e
respond (again e) zero retry = raise e
respond (again e) (suc left) retry = retry

-- What `gh_api_post` makes of the one answer. A timeout is not caught, so it is an exception like
-- any other.
unfoldable pub post_reply : Proc → Exec Text
post_reply timed_out = raise crash
post_reply other = respond (reply other) 0 (raise crash)

module _ (env : Env) where
  -- The loop with the attempts that are left and the doublings of the delay so far. The last
  -- attempt does not pause; with no attempt at all the line behind the loop raises.
  unfoldable pub gh_attempts : List Text → ℕ → ℕ → Exec Text
  unfolding execute pause
  gh_attempts argv zero doublings = raise unreachable
  gh_attempts argv (suc left) doublings = do
    p ← execute env argv none
    respond (reply p) left (pause doublings >> gh_attempts argv left (doublings + 1))

  unfoldable pub gh_api : List Text → Exec Text
  unfolding gh_attempts
  gh_api args = gh_attempts (codes "gh" ∷ codes "api" ∷ args) env.gh_tries 0

  -- No retry.
  unfoldable pub gh_api_post : Text → Json → Exec Text
  unfolding execute
  gh_api_post path payload = do
    p ←
        execute env
          (codes "gh"
            ∷ codes "api"
            ∷ codes "-X"
            ∷ codes "POST"
            ∷ path
            ∷ codes "--input"
            ∷ codes "-"
            ∷ [])
          (some payload)
    post_reply p

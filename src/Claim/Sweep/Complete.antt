-- ===== src/Claim/Sweep/Complete.antt =====
-- A green that does not hold any more is revoked.
use fs_quint.Base.{◌≡◌, refl, ap, ◌∙◌, false, Option, some, List, [], ◌∷◌, ◌++◌}
use fs_quint.Base.Text.{Text, codes, same}
use fs_quint.Host.{
  Exception, unreachable, gate_error, missing, forbidden, crash, system_exit, Result, value, raised,
  Proc, not_started, timed_out, exited, ran, World, Env, Exec, execute, pure, raise,
}
use fs_quint.Host.Value.{Json, str}
use fs_quint.Claim.Transport.{
  Reply, answered, refused, again, reply, respond, post_reply, gh_api_post,
}
use fs_quint.Claim.Runs.{standing_conclusion}
use fs_quint.Claim.Verdict.{Args, Finding, Verdict, evaluate}
use fs_quint.Claim.Sweep.Reads.{failed_run, posting}
use fs_quint.Claim.Sweep.{
  Outcome, Sweep, success, revoked, payload, attempt, evaluation_handler, read_handler, publish,
  revoke, judge_again, evaluate_body, body_of, sweep_item,
}

ended :
    {A : Type 0}
    → (Exception → Exec Outcome)
    → (A → Exec Outcome)
    → World
    → Result A
    → record { result : Result Outcome; world : World }
ended handler k v (value a) = k a v
ended handler k v (raised e) = handler e v

abbrev post_command : Text → List Text
post_command path =
    codes "gh" ∷ codes "api" ∷ codes "-X" ∷ codes "POST" ∷ path ∷ codes "--input" ∷ codes "-" ∷ []

respond-world : (r : Reply) (w : World) → (respond r 0 (raise crash) w).world ≡ w
unfolding respond
respond-world (answered out) w = refl
respond-world (refused e) w = refl
respond-world (again e) w = refl

post_reply-world : (p : Proc) (w : World) → (post_reply p w).world ≡ w
unfolding post_reply
post_reply-world not_started w = respond-world (reply not_started) w
post_reply-world timed_out w = refl
post_reply-world (exited n out err) w = respond-world (reply (exited n out err)) w

post-world :
    (env : Env) (path : Text) (input : Json) (w : World)
    → (gh_api_post env path input w).world ≡ ran (post_command path) (some input) ∷ w
unfolding gh_api_post execute
post-world env path input w =
    post_reply-world (env.proc w (post_command path) (some input))
      (ran (post_command path) (some input) ∷ w)

-- What stands behind a `try` whose action ends with a value.
attempt-value :
    {A : Type 0} (m : Exec A) (handler : Exception → Exec Outcome) (k : A → Exec Outcome)
    (w : World) (a : A)
    → (m w).result ≡ value a
    → attempt m handler k w ≡ k a (m w).world
unfolding ended
attempt-value m handler k w a h = ap (ended handler k (m w).world) h

read_handler-world : (e : Exception) (w : World) → (read_handler e w).world ≡ w
read_handler-world unreachable w = refl
read_handler-world gate_error w = refl
read_handler-world missing w = refl
read_handler-world forbidden w = refl
read_handler-world crash w = refl
read_handler-world (system_exit n) w = refl

ended-world :
    {A : Type 0} (o : Outcome) (w : World) (r : Result A)
    → (ended read_handler (λ _. pure o) w r).world ≡ w
unfolding ended
ended-world o w (value a) = refl
ended-world o w (raised e) = read_handler-world e w

abbrev runs_path : Sweep → Text
runs_path s = codes "repos/" ++ (s.options.repo ++ codes "/check-runs")

-- The world behind a published check run.
publish-world :
    (env : Env) (s : Sweep) (a : Args) (sha : Text) (f : Finding) (w : World)
    → s.dry_run ≡ false
    → (publish env s a sha f w).world
      ≡ ran (post_command (runs_path s)) (some (payload s a sha f)) ∷ w
unfolding publish ended
publish-world env s a sha f w wet =
    let posted = gh_api_post env (runs_path s) (payload s a sha f) in
    rw (wet, publish)
      (ended-world revoked (posted w).world (posted w).result
        ∙ post-world env (runs_path s) (payload s a sha f) w)

revoke-world :
    (env : Env) (s : Sweep) (a : Args) (sha : Text) (o : Option Finding) (f : Finding) (w : World)
    → s.dry_run ≡ false
    → o ≡ some f
    → (revoke env s a sha o (some success) w).world
      ≡ ran (post_command (runs_path s)) (some (payload s a sha f)) ∷ w
unfolding revoke same
revoke-world env s a sha o f w wet e = rw e (publish-world env s a sha f w wet)

-- A pull request of an item branch whose evaluation is a finding and whose standing conclusion is
-- `success` gets a check run with the conclusion `failure`: the last thing that its step of the sweep
-- does is to post it.
pub sweep_item-revokes :
    (env : Env) (s : Sweep) (a : Args) (sha body : Text) (w : World) (j : Verdict) (f : Finding)
    → s.dry_run ≡ false
    → (evaluate env a body w).result ≡ value j
    → j.finding ≡ some f
    → (standing_conclusion env s.options.repo sha (evaluate env a body w).world).result
      ≡ value (some success)
    → (sweep_item env s a sha (str body) w).world
      ≡ ran (posting s) (some (failed_run s a sha f))
        ∷ (standing_conclusion env s.options.repo sha (evaluate env a body w).world).world
unfolding sweep_item judge_again evaluate_body body_of payload
sweep_item-revokes env s a sha body w j f wet e refuses stands =
    let v = (evaluate env a body w).world in
    let standing = standing_conclusion env s.options.repo sha in
    ap (λ x. x.world)
      (attempt-value (evaluate_body env s a (str body)) evaluation_handler (judge_again env s a sha)
        w j e)
    ∙ (ap (λ x. x.world)
          (attempt-value standing read_handler (revoke env s a sha j.finding) v (some success)
            stands)
        ∙ revoke-world env s a sha j.finding f (standing v).world wet refuses)

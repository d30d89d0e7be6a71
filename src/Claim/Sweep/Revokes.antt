-- ===== src/Claim/Sweep/Revokes.antt =====
-- Every check run that the sweep creates has its grounds: the rules for its steps, and the sweep.
use fs_quint.Claim.Transport.{post_reply, gh_api}
use fs_quint.Base.{◌++◌, inl, inr, sym, subst, Bool-cases, if◌then◌else◌}
use fs_quint.Host.Value.{truthy}
use fs_quint.Host.Results.{value-injective}
use fs_quint.Host.Actions.{>>=-value}
use fs_quint.Host.Logs.{Later, Extends-Later, Extends-trans}
use fs_quint.Claim.Comments.{decoded}
use fs_quint.Claim.Verdict.Items.{IsItem, item_args-IsItem}
use fs_quint.Claim.Sweep.Reads.{Among, pulls_of, IsPull, IsBody, failed_run, posting}
use fs_quint.Host.Logs.{LogsAt-if}
use fs_quint.Claim.Runs.Reading.{standing-Logs, open_item_prs-Logs}
use fs_quint.Claim.Verdict.Reading.{evaluate-Logs}
use fs_quint.Host.Logs.{Extends}
use fs_quint.Claim.Sweep.{sweep_named, count}
use fs_quint.Host.Value.{null, bool, int, float, arr}
use fs_quint.Claim.Sweep.Reads.{reads}
use fs_quint.Claim.Sweep.{left_alone, revoked, unfenced}
use fs_quint.Host.{Proc, not_started, timed_out, exited}
use fs_quint.Base.{◌≡◌, refl, ap, Option, none, some, List, [], ◌∷◌, arith}
use fs_quint.Base.Text.{Text, codes, same, same_iff, lower}
use fs_quint.Host.{crash, Result, value, raised, Event, World, Env, pure, lift, proceed, execute}
use fs_quint.Host.Logs.{
  LogsAt, Logs, Logs-pure, Logs-raise, Logs-lift, LogsAt->>=, Logs->>=, Logs-execute,
}
use fs_quint.Host.Value.{Json, str, obj, get_or_null, as_text}
use fs_quint.Claim.Transport.{gh_api_post}
use fs_quint.Claim.Transport.Reading.{respond-Logs}
use fs_quint.Claim.Shape.{is_head_sha}
use fs_quint.Claim.Verdict.{Args, Finding, Verdict, evaluate, item_args}
use fs_quint.Claim.Runs.{run_keys, conclusion_of, open_item_prs, standing_conclusion}
use fs_quint.Claim.Sweep.{
  Outcome, Sweep, Counts, success, payload, read_handler, evaluation_handler, publish, revoke,
  judge_again, body_of, evaluate_body, sweep_item, sweep_fenced, sweep_head, sweep_fields, sweep_pr,
  sweep_prs, sweep_all,
}
use fs_quint.Claim.Sweep.Reads.{
  Grounds, IsNewest, Revocation, Publishes, attempt-LogsAt, read_handler-Logs,
  evaluation_handler-Logs,
}

as_text-str : (v : Json) (t : Text) → as_text v ≡ some t → v ≡ str t
unfolding as_text
as_text-str (str u) t h = ground (arith, h)
as_text-str null t h = absurd (ground (arith, h))
as_text-str (bool b) t h = absurd (ground (arith, h))
as_text-str (int n) t h = absurd (ground (arith, h))
as_text-str (float a b c) t h = absurd (ground (arith, h))
as_text-str (arr vs) t h = absurd (ground (arith, h))
as_text-str (obj fs) t h = absurd (ground (arith, h))

empty-IsBody :
    (v : Json) (t : Text) → (if truthy v then raised crash else value []) ≡ value t → IsBody v t
empty-IsBody v t h = elim (Bool-cases (truthy v)) [
  | inl e ↦ absurd (ground (arith, rw e at h))
  | inr e ↦ inr (e, sym (value-injective [] t (rw e at h)))
]

body_of-IsBody : (v : Json) (t : Text) → body_of v ≡ value t → IsBody v t
unfolding body_of
body_of-IsBody (str u) t h = inl (ap str (value-injective u t h))
body_of-IsBody null t h = empty-IsBody null t h
body_of-IsBody (bool b) t h = empty-IsBody (bool b) t h
body_of-IsBody (int n) t h = empty-IsBody (int n) t h
body_of-IsBody (float a b c) t h = empty-IsBody (float a b c) t h
body_of-IsBody (arr vs) t h = empty-IsBody (arr vs) t h
body_of-IsBody (obj fs) t h = empty-IsBody (obj fs) t h

standing-IsNewest :
    (env : Env) (repo sha : Text) (w : World) (c : Option Text)
    → (standing_conclusion env repo sha w).result ≡ value c
    → IsNewest env repo sha w c
unfolding standing_conclusion
standing-IsNewest env repo sha w c h =
    let (printed, answered, rest) = >>=-value (gh_api env _) _ w c h in
    let (runs, keyed, ends) =
      >>=-value (lift (run_keys env (decoded env printed))) (λ ks. pure (conclusion_of ks)) _ c
        rest in
    record {
      printed = printed;
      answered = answered;
      runs = runs;
      keyed = keyed;
      newest = sym (value-injective (conclusion_of runs) c ends);
    }

-- The sweep that was started at `start`.
module _ (env : Env) (s : Sweep) (start : World) where
  abbrev pub P : Event → Type 0
  P = Publishes env s start

  post_reply-Logs : (p : Proc) → Logs P (post_reply p)
  unfolding post_reply
  post_reply-Logs timed_out = Logs-raise Text crash
  post_reply-Logs not_started = respond-Logs (reads env s start) env _ 0 _ (Logs-raise Text crash)
  post_reply-Logs (exited n out err) =
      respond-Logs (reads env s start) env _ 0 _ (Logs-raise Text crash)

  post-Logs :
      (input : Json)
      → Revocation env s start (posting s) input
      → Logs P (gh_api_post env (codes "repos/" ++ (s.options.repo ++ codes "/check-runs")) input)
  unfolding gh_api_post
  post-Logs input r =
      Logs->>= (execute env _ (some input)) post_reply (Logs-execute env _ (some input) r)
        post_reply-Logs

  publish-LogsAt :
      (a : Args) (sha : Text) (f : Finding) (w : World)
      → Grounds env s start a sha f
      → LogsAt P (publish env s a sha f) w
  unfolding publish payload
  publish-LogsAt a sha f w g =
      LogsAt-if s.dry_run (pure revoked) _ w (λ e. (Logs-pure revoked).at w)
        λ wet.
          attempt-LogsAt read_handler (λ _. pure revoked) (gh_api_post env _ _) w
            ((post-Logs (failed_run s a sha f) (record {
              wet = wet;
              args = a;
              sha = sha;
              finding = f;
              grounds = g;
              command = refl;
              posted = refl;
            })).at
              w)
            read_handler-Logs (λ a e. (Logs-pure revoked).at _)

  revoke-LogsAt :
      (a : Args) (sha : Text) (o : Option Finding) (c : Option Text) (w : World)
      → ((f : Finding) → o ≡ some f → c ≡ some success → Grounds env s start a sha f)
      → LogsAt P (revoke env s a sha o c) w
  unfolding revoke
  revoke-LogsAt a sha o none w g = (Logs-pure left_alone).at w
  revoke-LogsAt a sha none (some c) w g = (Logs-pure left_alone).at w
  revoke-LogsAt a sha (some f) (some c) w g =
      LogsAt-if (same c success) (publish env s a sha f) _ w
        (λ e. publish-LogsAt a sha f w (g f refl (ap some ((same_iff c success).0 e))))
        (λ e. (Logs-pure left_alone).at w)

  judge_again-LogsAt :
      (ref sha : Text) (content : Json)
      → IsPull env s start ref sha content
      → (a : Args) → IsItem s.options ref sha a
      → (body : Text) → IsBody content body
      → (v : World) → Later start v
      → (j : Verdict) → (evaluate env a body v).result ≡ value j
      → LogsAt P (judge_again env s a sha j) (evaluate env a body v).world
  unfolding judge_again
  judge_again-LogsAt ref sha content pull a item body is_body v since j e =
      attempt-LogsAt read_handler (revoke env s a sha j.finding)
        (standing_conclusion env s.options.repo sha) _
        ((standing-Logs (reads env s start) env s.options.repo sha).at _) read_handler-Logs
        λ c read. revoke-LogsAt a sha j.finding c _ λ f refuses stands. record {
          ref = ref;
          content = content;
          open_pull = pull;
          digits = item.digits;
          branch = item.branch;
          number = item.number;
          numbered = item.numbered;
          item = item.item;
          body = body;
          is_body = is_body;
          at_evaluation = v;
          since = since;
          verdict = j;
          evaluated = e;
          refuses = refuses;
          stands =
              subst (IsNewest env s.options.repo sha (evaluate env a body v).world) stands
                (standing-IsNewest env s.options.repo sha _ c read);
        }

  evaluate_body-LogsAt :
      (a : Args) (body : Json) (w : World) → LogsAt P (evaluate_body env s a body) w
  unfolding evaluate_body
  evaluate_body-LogsAt a body w =
      (Logs->>= (lift (body_of body)) (evaluate env a) (Logs-lift (body_of body))
          (evaluate-Logs (reads env s start) env a)).at
        w

  -- A verdict stands on a body that is a text.
  with_text :
      (r : Result Text) (a : Args) (w : World) (sha : Text) (j : Verdict)
      → (proceed r (evaluate env a) w).result ≡ value j
      → ((t : Text)
          → r ≡ value t
          → (evaluate env a t w).result ≡ value j
          → LogsAt P (judge_again env s a sha j) (evaluate env a t w).world)
      → LogsAt P (judge_again env s a sha j) (proceed r (evaluate env a) w).world
  with_text (value t) a w sha j e k = k t refl e
  with_text (raised x) a w sha j e k = absurd (ground arith)

  sweep_item-LogsAt :
      (ref sha : Text) (a : Args) (body : Json) (w : World)
      → IsPull env s start ref sha body
      → Later start w
      → item_args s.options ref sha ≡ value (some a)
      → LogsAt P (sweep_item env s a sha body) w
  unfolding sweep_item evaluate_body
  sweep_item-LogsAt ref sha a body w pull since item =
      attempt-LogsAt evaluation_handler (judge_again env s a sha) (evaluate_body env s a body) w
        (evaluate_body-LogsAt a body w) evaluation_handler-Logs
        λ j e. with_text (body_of body) a w sha j e λ t is_text judged.
          judge_again-LogsAt ref sha body pull a (item_args-IsItem s.options ref sha a item) t
            (body_of-IsBody body t is_text) w since j judged

  sweep_fenced-LogsAt :
      (ref sha : Text) (body : Json) (o : Option Args) (w : World)
      → IsPull env s start ref sha body
      → Later start w
      → item_args s.options ref sha ≡ value o
      → LogsAt P (sweep_fenced env s sha body o) w
  unfolding sweep_fenced
  sweep_fenced-LogsAt ref sha body none w pull since e = (Logs-pure unfenced).at w
  sweep_fenced-LogsAt ref sha body (some a) w pull since e =
      sweep_item-LogsAt ref sha a body w pull since e

  sweep_head-LogsAt :
      (ref sha : Text) (body : Json) (w : World)
      → IsPull env s start ref sha body
      → Later start w
      → LogsAt P (sweep_head env s ref sha body) w
  unfolding sweep_head
  sweep_head-LogsAt ref sha body w pull since =
      LogsAt-if (is_head_sha (lower sha)) _ (pure unfenced) w
        (λ _.
          LogsAt->>= (lift (item_args s.options ref sha)) (sweep_fenced env s sha body) w
            ((Logs-lift _).at w) (λ o e. sweep_fenced-LogsAt ref sha body o _ pull since e))
        (λ _. (Logs-pure unfenced).at w)

  sweep_named-LogsAt :
      (body : Json) (ref sha : Option Text) (w : World)
      → ((r : Text) → (c : Text) → ref ≡ some r → sha ≡ some c → IsPull env s start r c body)
      → Later start w
      → LogsAt P (sweep_named env s body ref sha) w
  unfolding sweep_named
  sweep_named-LogsAt body none sha w pull since = (Logs-pure unfenced).at w
  sweep_named-LogsAt body (some ref) none w pull since = (Logs-pure unfenced).at w
  sweep_named-LogsAt body (some ref) (some sha) w pull since =
      sweep_head-LogsAt ref sha body w (pull ref sha refl refl) since

  module _ (printed : Text)
      (answered : (gh_api env (pulls_of s.options.repo) start).result ≡ value printed) where
    sweep_pr-LogsAt :
        (pr : Json) (w : World)
        → Among pr (decoded env printed)
        → Later start w
        → LogsAt P (sweep_pr env s pr) w
    unfolding sweep_pr sweep_fields
    sweep_pr-LogsAt (obj pr) w among since =
        sweep_named-LogsAt (get_or_null (codes "body") pr) (as_text (get_or_null (codes "ref") pr))
          (as_text (get_or_null (codes "sha") pr)) w
          (λ r c e d. record {
            printed = printed;
            answered = answered;
            pull = pr;
            among = among;
            ref_field = as_text-str _ r e;
            sha_field = as_text-str _ c d;
            body_field = refl;
          })
          since
    sweep_pr-LogsAt null w among since = (Logs-raise Outcome crash).at w
    sweep_pr-LogsAt (bool b) w among since = (Logs-raise Outcome crash).at w
    sweep_pr-LogsAt (int n) w among since = (Logs-raise Outcome crash).at w
    sweep_pr-LogsAt (float a b c) w among since = (Logs-raise Outcome crash).at w
    sweep_pr-LogsAt (str t) w among since = (Logs-raise Outcome crash).at w
    sweep_pr-LogsAt (arr vs) w among since = (Logs-raise Outcome crash).at w

    sweep_prs-LogsAt :
        (n : Counts) (prs : List Json) (w : World)
        → ((v : Json) → Among v prs → Among v (decoded env printed))
        → Later start w
        → LogsAt P (sweep_prs env s n prs) w
    unfolding sweep_prs
    sweep_prs-LogsAt n [] w all since = (Logs-pure n).at w
    sweep_prs-LogsAt n (pr ∷ prs) w all since =
        let one = sweep_pr-LogsAt pr w (all pr (inl refl)) since in
        LogsAt->>= (sweep_pr env s pr) (λ o. sweep_prs env s (count o n) prs) w one
          λ o e.
            sweep_prs-LogsAt (count o n) prs (sweep_pr env s pr w).world (λ v m. all v (inr m))
              (Extends-trans start w (sweep_pr env s pr w).world since
                (Extends-Later P w (sweep_pr env s pr w).world one.grows))

  pub sweep_all-LogsAt : LogsAt P (sweep_all env s) start
  unfolding sweep_all open_item_prs
  sweep_all-LogsAt =
      LogsAt->>= (open_item_prs env s.options.repo) _ start
        ((open_item_prs-Logs (reads env s start) env s.options.repo).at start)
        λ prs e.
          let (printed, answered, ends) =
            >>=-value (gh_api env (pulls_of s.options.repo)) (λ raw. pure (decoded env raw)) start
              prs e in
          sweep_prs-LogsAt printed answered _ prs (open_item_prs env s.options.repo start).world
            (λ v m. subst (Among v) (sym (value-injective (decoded env printed) prs ends)) m)
            (Extends-Later P start _
              ((open_item_prs-Logs (reads env s start) env s.options.repo).at start).grows)

-- What the sweep adds to the log of the host, however it ends: commands that read, pauses, and, if it
-- is no dry run, the creation of a failed check run for the head of a pull request that its own
-- listing names as open on an item branch, when the evaluation of the body of that pull request for
-- the item of the branch, during this sweep, was a finding, and the standing conclusion read right
-- behind it was success.
pub sweep_all-revokes :
    (env : Env) (s : Sweep) (w : World) → Extends (Publishes env s w) w (sweep_all env s w).world
sweep_all-revokes env s w = (sweep_all-LogsAt env s w).grows

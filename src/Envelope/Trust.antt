-- ===== src/Envelope/Trust.antt =====
-- What the envelope has shown when it hands a pull request to the validator.
use fs_quint.Envelope.{printed_base, moved_base, named_revision, ancestor_answer, validator_status}
use fs_quint.Base.Int.{eqb_ℤ_iff}
use fs_quint.Base.{&&-left, &&-right, ℕ, All, all, length, ◌≤◌, ◌≢◌, ◌==◌, ==_iff}
use fs_quint.Base.Text.{is_hex, is_digit}
use fs_quint.Base.Text.{strip}
use fs_quint.Base.{
  ℤ, ◌≡◌, refl, ap, ◌∙◌, sym, ◌⊎◌, inl, inr, Bool, true, false, not, ◌&&◌, Option, none, some, List,
  [], ◌∷◌, arith, Bool-cases, eqb_ℤ, pos,
}
use fs_quint.Base.Text.{Text, codes, same, same_iff, words, starts_with}
use fs_quint.Host.{World, Env, Exec, value, Proc, not_started, timed_out, exited, execute, ◌>>◌}
use fs_quint.Host.Results.{value-injective}
use fs_quint.Host.Actions.{>>=-value}
use fs_quint.Envelope.{
  Envelope, is_sha, require, revision, is_ancestor, single_base, diff_base, files_present,
  previous_option, validator_command, run_validator, main,
}

-- A check in front of the rest.
require-value :
    {B : Type 0} (b : Bool) (k : Exec B) (w : World) (v : B)
    → ((require b >> k) w).result ≡ value v
    → (b ≡ true) × ((k w).result ≡ value v)
unfolding require
require-value true k w v h = (refl, h)
require-value false k w v h = absurd (ground arith)

-- A full commit id: 40 hexadecimal digits, the letters in lower case.
abbrev pub IsCommit : Text → Type 0
IsCommit s = (length s ≡ 40) × All (λ c. ((48 ≤ c) × (c ≤ 57)) ⊎ ((97 ≤ c) × (c ≤ 102))) s

all_hex :
    (s : Text) → all is_hex s ≡ true → All (λ c. ((48 ≤ c) × (c ≤ 57)) ⊎ ((97 ≤ c) × (c ≤ 102))) s
unfolding is_hex is_digit
all_hex [] h = tt
all_hex (c ∷ s) h = (hex_digit c (&&-left (is_hex c) _ h), all_hex s (&&-right (is_hex c) _ h))
  where
    hex_digit : (c : ℕ) → is_hex c ≡ true → ((48 ≤ c) × (c ≤ 57)) ⊎ ((97 ≤ c) × (c ≤ 102))
    hex_digit c h = ground arith

is_sha-IsCommit : (s : Text) → is_sha s ≡ true → IsCommit s
unfolding is_sha
is_sha-IsCommit s h = (
  (==_iff (length s) 40).0 (&&-left _ (all is_hex s) h),
  all_hex s (&&-right (length s == 40) _ h),
)

-- The command line of `git` in the directory, and what it printed when it ended with success.
abbrev pub in_git : Text → List Text → List Text
in_git dir args = codes "git" ∷ codes "-C" ∷ dir ∷ args

abbrev pub IsPrinted : Env → List Text → World → Text → Type 0
IsPrinted env argv w out = (err : Text) × (env.proc w argv none ≡ exited (pos 0) out err)

-- The commit that `git rev-parse` named, up to white space.
pub record IsNamed (env : Env) (dir name : Text) (w : World) (commit : Text) : Type 0 where
  pub out : Text
  pub printed : IsPrinted env (in_git dir (codes "rev-parse" ∷ name ∷ [])) w out
  pub trimmed : strip out ≡ commit

-- The status of the question whether a commit is an ancestor of another: 0 is yes and 1 is no.
abbrev pub IsAnswer : Env → Text → Text → Text → World → ℤ → Type 0
IsAnswer env dir ancestor descendant w status =
    (out : Text) × (err : Text) × (env.proc w
        (in_git dir (codes "merge-base" ∷ codes "--is-ancestor" ∷ ancestor ∷ descendant ∷ [])) none
      ≡ exited status out err)

-- The default branch moved on from the event's base: the old base is an ancestor of the new one, the
-- head is not in it yet, and `git merge-base --all` printed one commit. The questions are asked one
-- after the other.
pub record Moved (env : Env) (dir event live head : Text) (w : World) (measured : Text)
    : Type 0 where
  pub forward : IsAnswer env dir event live w (pos 0)
  pub unmerged : IsAnswer env dir head live (is_ancestor env dir event live w).world (pos 1)
  pub out : Text
  pub printed :
      IsPrinted env
        (in_git dir (codes "merge-base" ∷ codes "--all" ∷ live ∷ head ∷ []))
        (is_ancestor env dir head live (is_ancestor env dir event live w).world).world
        out
  pub single : words out ≡ measured ∷ []
  pub commit : IsCommit measured

abbrev pub IsMeasured : Env → Text → Text → Text → Text → World → Text → Type 0
IsMeasured env dir event live head w measured =
    ((live ≡ event) × (measured ≡ event)) ⊎ Moved env dir event live head w measured

exited_zero :
    (n : ℤ) (out err : Text) → eqb_ℤ n (pos 0) ≡ true → exited n out err ≡ exited (pos 0) out err
exited_zero n out err e = ap (λ m. exited m out err) ((eqb_ℤ_iff n (pos 0)).0 e)

named-value :
    (env : Env) (p : Proc) (w : World) (commit : Text)
    → (named_revision env p w).result ≡ value commit
    → (out : Text) × (err : Text) × (p ≡ exited (pos 0) out err) × (strip out ≡ commit)
unfolding named_revision
named-value env not_started w commit h = absurd (ground (arith, h))
named-value env timed_out w commit h = absurd (ground (arith, h))
named-value env (exited n out err) w commit h = elim (Bool-cases (eqb_ℤ n (pos 0))) [
  | inr e ↦ absurd (ground (arith, rw (e, named_revision) at h))
  | inl e ↦ (
    out,
    err,
    exited_zero n out err e,
    value-injective (strip out) commit (rw (e, named_revision) at h),
  )
]

revision-IsNamed :
    (env : Env) (dir name : Text) (w : World) (commit : Text)
    → (revision env dir name w).result ≡ value commit
    → IsNamed env dir name w commit
unfolding revision execute
revision-IsNamed env dir name w commit h =
    let (out, err, printed, trimmed) = named-value env _ _ commit h in
    record { out = out; printed = (err, printed); trimmed = trimmed }

-- The status that an answer stands for.
abbrev status_of : Bool → ℤ
status_of true = pos 0
status_of false = pos 1

answer-status :
    (env : Env) (p : Proc) (w : World) (b : Bool)
    → (ancestor_answer env p w).result ≡ value b
    → (out : Text) × (err : Text) × (p ≡ exited (status_of b) out err)
unfolding ancestor_answer
answer-status env not_started w b h = absurd (ground (arith, h))
answer-status env timed_out w b h = absurd (ground (arith, h))
answer-status env (exited n out err) w b h = elim (Bool-cases (eqb_ℤ n (pos 0))) [
  | inl e ↦ (
    out,
    err,
    exited_zero n out err e
        ∙ ap (λ c. exited (status_of c) out err)
            (value-injective true b (rw (e, ancestor_answer) at h)),
  )
  | inr e ↦ elim (Bool-cases (eqb_ℤ n (pos 1))) [
    | inr d ↦ absurd (ground (arith, rw (e, d, ancestor_answer) at h))
    | inl d ↦ (
      out,
      err,
      ap (λ m. exited m out err) ((eqb_ℤ_iff n (pos 1)).0 d)
          ∙ ap (λ c. exited (status_of c) out err)
              (value-injective false b (rw (e, d, ancestor_answer) at h)),
    )
  ]
]

ancestor-IsAnswer :
    (env : Env) (dir a d : Text) (w : World) (b : Bool)
    → (is_ancestor env dir a d w).result ≡ value b
    → IsAnswer env dir a d w (status_of b)
unfolding is_ancestor execute
ancestor-IsAnswer env dir a d w b h = answer-status env _ _ b h

single_base-value :
    (env : Env) (ws : List Text) (w : World) (b : Text)
    → (single_base env ws w).result ≡ value b
    → (ws ≡ b ∷ []) × IsCommit b
unfolding single_base
single_base-value env [] w b h = absurd (ground arith)
single_base-value env (x ∷ []) w b h = elim (Bool-cases (is_sha x)) [
  | inl e ↦
      let q = value-injective x b (rw (e, single_base) at h) in
      (ap (λ y. y ∷ []) q, is_sha-IsCommit b (ap is_sha (sym q) ∙ e))
  | inr e ↦ absurd (ground (arith, rw (e, single_base) at h))
]
single_base-value env (x ∷ y ∷ ws) w b h = absurd (ground arith)

printed_base-value :
    (env : Env) (p : Proc) (w : World) (b : Text)
    → (printed_base env p w).result ≡ value b
    → (out : Text) × (err : Text) × (p ≡ exited (pos 0) out err) × (words out ≡ b ∷ []) × IsCommit b
unfolding printed_base
printed_base-value env not_started w b h = absurd (ground arith)
printed_base-value env timed_out w b h = absurd (ground arith)
printed_base-value env (exited n out err) w b h = elim (Bool-cases (eqb_ℤ n (pos 0))) [
  | inl e ↦
      let (single, commit) = single_base-value env (words out) w b (rw (e, printed_base) at h) in
      (out, err, exited_zero n out err e, single, commit)
  | inr e ↦ absurd (ground (arith, rw (e, printed_base) at h))
]

moved_base-Moved :
    (env : Env) (dir event live head : Text) (w : World) (b : Text)
    → (moved_base env dir event live head w).result ≡ value b
    → Moved env dir event live head w b
unfolding moved_base
moved_base-Moved env dir event live head w b h =
    let (on, asked, h1) = >>=-value (is_ancestor env dir event live) _ w b h in
    let v = (is_ancestor env dir event live w).world in
    let (forward, h2) = require-value on _ v b h1 in
    let (off, asked2, h3) = >>=-value (is_ancestor env dir head live) _ v b h2 in
    let u = (is_ancestor env dir head live v).world in
    let (unmerged, h4) = require-value (not off) _ u b h3 in
    let argv = in_git dir (codes "merge-base" ∷ codes "--all" ∷ live ∷ head ∷ []) in
    let (p, done, h5) = >>=-value (execute env argv none) (printed_base env) u b h4 in
    let (out, err, e, single, commit) = printed_base-value env p _ b h5 in
    record {
      forward = ancestor-IsAnswer env dir event live w true (asked ∙ ap value forward);
      unmerged = ancestor-IsAnswer env dir head live v false (asked2 ∙ ap value (ground arith));
      out = out;
      printed = (err, value-injective _ p (unfold execute in done) ∙ e);
      single = single;
      commit = commit;
    }

diff_base-IsMeasured :
    (env : Env) (dir event live head : Text) (w : World) (b : Text)
    → (diff_base env dir event live head w).result ≡ value b
    → IsMeasured env dir event live head w b
unfolding diff_base
diff_base-IsMeasured env dir event live head w b h = elim (Bool-cases (same live event)) [
  | inl e ↦ inl ((same_iff live event).0 e, sym (value-injective event b (rw (e, diff_base) at h)))
  | inr e ↦ inr (moved_base-Moved env dir event live head w b (rw (e, diff_base) at h))
]

-- The previous head that is passed on is another commit, and an ancestor of the head.
abbrev pub IsPassed : Env → Envelope → Option Text → World → List Text → Type 0
IsPassed env e none w options = options ≡ []
IsPassed env e (some p) w options =
    IsCommit p
    × (p ≢ e.head_sha)
    × IsAnswer env e.git_dir p e.head_sha w (pos 0)
    × (options ≡ codes "--routine-previous-head" ∷ p ∷ [])

other : (s t : Text) → not (same s t) ≡ true → s ≢ t
other s t h e = ground (arith, h, (same_iff s t).1 e)

previous_option-IsPassed :
    (env : Env) (e : Envelope) (o : Option Text) (w : World) (options : List Text)
    → (previous_option env e o w).result ≡ value options
    → IsPassed env e o w options
unfolding previous_option
previous_option-IsPassed env e none w options h = sym (value-injective [] options h)
previous_option-IsPassed env e (some p) w options h =
    let (named, h1) = require-value (is_sha p && not (same p e.head_sha)) _ w options h in
    let (b, asked, h2) = >>=-value (is_ancestor env e.git_dir p e.head_sha) _ w options h1 in
    let (behind, h3) = require-value b _ _ options h2 in
    (
      is_sha-IsCommit p (&&-left _ (not (same p e.head_sha)) named),
      other p e.head_sha (&&-right (is_sha p) _ named),
      ancestor-IsAnswer env e.git_dir p e.head_sha w true (asked ∙ ap value behind),
      sym (value-injective _ options h3),
    )

files_present-value :
    (env : Env) (e : Envelope) (w : World) (u : Unit)
    → (files_present env e w).result ≡ value u
    → (env.is_file w e.validator && env.is_file w e.body) ≡ true
unfolding files_present require
files_present-value env e w u h =
    elim (Bool-cases (env.is_file w e.validator && env.is_file w e.body)) [
      | inl q ↦ q
      | inr q ↦ absurd (ground (arith, rw (q, files_present) at h))
    ]

validator-status :
    (env : Env) (p : Proc) (w : World) (status : ℤ)
    → (validator_status env p w).result ≡ value status
    → (out : Text) × (err : Text) × (p ≡ exited status out err)
unfolding validator_status
validator-status env not_started w status h = absurd (ground (arith, h))
validator-status env timed_out w status h = absurd (ground (arith, h))
validator-status env (exited n out err) w status h =
    (out, err, ap (λ m. exited m out err) (value-injective n status h))

-- The log behind the questions for the base and the head, and behind the one for the previous head.
abbrev pub behind_head : Env → Envelope → World → World
behind_head env e w =
    (revision env e.git_dir e.head_revision (revision env e.git_dir e.base_revision w).world).world

abbrev pub behind_previous : Env → Envelope → World → World
behind_previous env e w =
    (previous_option env e e.previous_head (files_present env e (behind_head env e w)).world).world

-- Everything that stands in front of the validator, and its own run, in the order of the log.
pub record Trusted (env : Env) (python : Text) (e : Envelope) (w : World) (status : ℤ)
    : Type 0 where
  pub default : e.base_ref ≡ e.default_branch
  pub base : IsCommit e.base_sha
  pub head : IsCommit e.head_sha
  pub live : Text
  pub live_base : IsNamed env e.git_dir e.base_revision w live
  pub live_commit : IsCommit live
  pub fetched :
      IsNamed env e.git_dir e.head_revision
        (revision env e.git_dir e.base_revision w).world
        e.head_sha
  pub branch : starts_with e.head_ref (codes "routine/") ≡ true
  pub validator : env.is_file (behind_head env e w) e.validator ≡ true
  pub body : env.is_file (behind_head env e w) e.body ≡ true
  pub options : List Text
  pub passed :
      IsPassed env e e.previous_head (files_present env e (behind_head env e w)).world options
  pub measured : Text
  pub is_measured :
      IsMeasured env e.git_dir e.base_sha live e.head_sha (behind_previous env e w) measured
  pub out : Text
  pub err : Text
  pub validated :
      env.proc
        (diff_base env e.git_dir e.base_sha live e.head_sha (behind_previous env e w)).world
        (python
          ∷ e.validator
          ∷ codes "--repo"
          ∷ e.repository
          ∷ codes "--head-ref"
          ∷ e.head_ref
          ∷ codes "--head-sha"
          ∷ e.head_sha
          ∷ codes "--base-sha"
          ∷ measured
          ∷ codes "--routine-policy-ref"
          ∷ live
          ∷ codes "--body"
          ∷ e.body
          ∷ options)
        none
      ≡ exited status out err

-- The envelope ends with a status only if the pull request is against the default branch, its base
-- and head are full commit ids, `git rev-parse` named a full commit id as the live base and the
-- event's head as the fetched head, the branch has the routine prefix, and the validator and the body
-- were files; a previous head that is passed on is another commit that `git` proved to be an ancestor
-- of the head; the changes are measured from the event's base if that is the live base, and otherwise
-- from the one commit that `git merge-base --all` printed for a live base that descends from it and
-- does not contain the head. The status is that of the validator, run behind all this on the body
-- and the repository of the envelope.
pub main-Trusted :
    (env : Env) (python : Text) (e : Envelope) (w : World) (status : ℤ)
    → (main env python e w).result ≡ value status
    → Trusted env python e w status
unfolding main run_validator execute validator_command
main-Trusted env python e w status h =
    let (default, h1) = require-value (same e.base_ref e.default_branch) _ w status h in
    let (base, h2) = require-value (is_sha e.base_sha) _ _ status h1 in
    let (head, h3) = require-value (is_sha e.head_sha) _ _ status h2 in
    let (live, live_base, h4) = >>=-value (revision env e.git_dir e.base_revision) _ w status h3 in
    let (live_commit, h5) = require-value (is_sha live) _ _ status h4 in
    let (found, fetched, h6) = >>=-value (revision env e.git_dir e.head_revision) _ _ status h5 in
    let (is_head, h7) = require-value (same found e.head_sha) _ _ status h6 in
    let (branch, h8) = require-value (starts_with e.head_ref (codes "routine/")) _ _ status h7 in
    let (unit, files, h9) = >>=-value (files_present env e) _ (behind_head env e w) status h8 in
    let (options, passed, h10) = >>=-value (previous_option env e e.previous_head) _ _ status h9 in
    let (measured, from, h11) =
      >>=-value (diff_base env e.git_dir e.base_sha live e.head_sha) _ (behind_previous env e w)
        status h10 in
    let (out, err, validated) = validator-status env _ _ status h11 in
    let present = files_present-value env e (behind_head env e w) unit files in
    record {
      default = (same_iff e.base_ref e.default_branch).0 default;
      base = is_sha-IsCommit e.base_sha base;
      head = is_sha-IsCommit e.head_sha head;
      live = live;
      live_base = revision-IsNamed env e.git_dir e.base_revision w live live_base;
      live_commit = is_sha-IsCommit live live_commit;
      fetched =
          revision-IsNamed env e.git_dir e.head_revision _ e.head_sha
            (fetched ∙ ap value ((same_iff found e.head_sha).0 is_head));
      branch = branch;
      validator = &&-left _ _ present;
      body = &&-right (env.is_file (behind_head env e w) e.validator) _ present;
      options = options;
      passed = previous_option-IsPassed env e e.previous_head _ options passed;
      measured = measured;
      is_measured = diff_base-IsMeasured env e.git_dir e.base_sha live e.head_sha _ measured from;
      out = out;
      err = err;
      validated = validated;
    }

-- ===== src/Envelope.antt =====
-- scripts/check-routine-eligibility-envelope.py: the checks in front of the validator.
pub mod Trust
use fs_quint.Base.{
  ℤ, pos, Bool, true, false, not, ◌&&◌, ◌||◌, Option, none, some, List, [], ◌∷◌, ◌++◌, length,
  eqb_ℤ, ◌==◌, all, if◌then◌else◌,
}
use fs_quint.Base.Text.{Text, codes, same, is_hex, strip, words, starts_with}
use fs_quint.Host.{
  crash, system_exit, Proc, not_started, timed_out, exited, Env, Exec, pure, raise, ◌>>=◌, ◌>>◌,
  execute,
}

-- `SHA.fullmatch`
unfoldable pub is_sha : Text → Bool
unfolding is_hex
is_sha s = length s == 40 && all is_hex s

pub record Envelope : Type 0 where
  pub git_dir : Text
  pub repository : Text
  pub default_branch : Text
  pub base_ref : Text
  pub base_revision : Text
  pub base_sha : Text
  pub head_ref : Text
  pub head_revision : Text
  pub head_sha : Text
  pub body : Text
  pub validator : Text
  pub previous_head : Option Text

-- `fail`: `SystemExit` with a message ends with the status 1.
abbrev pub fail : {A : Type 0} → Exec A
fail = raise (system_exit (pos 1))

unfoldable pub require : Bool → Exec Unit
require true = pure tt
require false = fail

abbrev git : Text → List Text → List Text
git dir args = codes "git" ∷ codes "-C" ∷ dir ∷ args

unfoldable pub validator_command : Text → Envelope → Text → Text → List Text → List Text
validator_command python e measured_from live_base previous =
    python
    ∷ e.validator
    ∷ codes "--repo"
    ∷ e.repository
    ∷ codes "--head-ref"
    ∷ e.head_ref
    ∷ codes "--head-sha"
    ∷ e.head_sha
    ∷ codes "--base-sha"
    ∷ measured_from
    ∷ codes "--routine-policy-ref"
    ∷ live_base
    ∷ codes "--body"
    ∷ e.body
    ∷ previous

module _ (env : Env) where
  unfoldable pub named_revision : Proc → Exec Text
  unfolding strip
  named_revision (exited status out err) = if eqb_ℤ status (pos 0) then pure (strip out) else fail
  named_revision _ = raise crash

  unfoldable pub revision : Text → Text → Exec Text
  unfolding execute named_revision
  revision dir name = do
    p ← execute env (git dir (codes "rev-parse" ∷ name ∷ [])) none
    named_revision p

  unfoldable pub ancestor_answer : Proc → Exec Bool
  ancestor_answer (exited status out err) =
      if eqb_ℤ status (pos 0) || eqb_ℤ status (pos 1) then pure (eqb_ℤ status (pos 0)) else fail
  ancestor_answer _ = raise crash

  unfoldable pub is_ancestor : Text → Text → Text → Exec Bool
  unfolding execute ancestor_answer
  is_ancestor dir ancestor descendant = do
    p ←
        execute env
          (git dir (codes "merge-base" ∷ codes "--is-ancestor" ∷ ancestor ∷ descendant ∷ [])) none
    ancestor_answer p

  -- The one merge base that `git merge-base --all` prints.
  unfoldable pub single_base : List Text → Exec Text
  unfolding is_sha
  single_base (base ∷ []) = if is_sha base then pure base else fail
  single_base _ = fail

  unfoldable pub printed_base : Proc → Exec Text
  unfolding single_base words
  printed_base (exited status out err) =
      if eqb_ℤ status (pos 0) then single_base (words out) else fail
  printed_base _ = raise crash

  unfoldable pub moved_base : Text → Text → Text → Text → Exec Text
  unfolding is_ancestor require execute printed_base
  moved_base dir event_base live_base head = do
    moved_on ← is_ancestor dir event_base live_base
    require moved_on
    contained ← is_ancestor dir head live_base
    require (not contained)
    p ← execute env (git dir (codes "merge-base" ∷ codes "--all" ∷ live_base ∷ head ∷ [])) none
    printed_base p

  unfoldable pub diff_base : Text → Text → Text → Text → Exec Text
  unfolding same moved_base
  diff_base dir event_base live_base head =
      if same live_base event_base
      then pure event_base
      else moved_base dir event_base live_base head

  -- The `--previous-head` that is passed on.
  unfoldable pub previous_option : Envelope → Option Text → Exec (List Text)
  unfolding is_sha same is_ancestor require
  previous_option e none = pure []
  previous_option e (some p) = do
    require (is_sha p && not (same p e.head_sha))
    behind ← is_ancestor e.git_dir p e.head_sha
    require behind
    pure (codes "--routine-previous-head" ∷ p ∷ [])

  unfoldable pub files_present : Envelope → Exec Unit
  unfolding require
  files_present e w = require (env.is_file w e.validator && env.is_file w e.body) w

  -- The validator's own status is the result.
  unfoldable pub validator_status : Proc → Exec ℤ
  validator_status (exited status out err) = pure status
  validator_status _ = raise crash

  unfoldable pub run_validator : List Text → Exec ℤ
  unfolding execute validator_status
  run_validator argv = do p ← execute env argv none; validator_status p

  -- `python` is `sys.executable`.
  unfoldable pub main : Text → Envelope → Exec ℤ
  unfolding require same is_sha revision starts_with files_present previous_option diff_base
      validator_command run_validator
  main python e = do
    require (same e.base_ref e.default_branch)
    require (is_sha e.base_sha)
    require (is_sha e.head_sha)
    live_base ← revision e.git_dir e.base_revision
    require (is_sha live_base)
    fetched ← revision e.git_dir e.head_revision
    require (same fetched e.head_sha)
    require (starts_with e.head_ref (codes "routine/"))
    files_present e
    previous ← previous_option e e.previous_head
    measured_from ← diff_base e.git_dir e.base_sha live_base e.head_sha
    run_validator (validator_command python e measured_from live_base previous)

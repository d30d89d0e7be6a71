-- ===== src/Telemetry/Command.antt =====
-- fsgg_telemetry_defaults.py `validate_workspace`, `credential_environment_name` and
-- `workspace_mutation_command`, and roadmap-telemetry.py `drain_command`.
use fs_quint.Base.{
  Bool, false, not, ◌||◌, ◌==◌, Option, none, some, List, [], ◌∷◌, ◌++◌, map, pos, eqb_ℤ,
  if◌then◌else◌,
}
use fs_quint.Base.{◌-◌}
use fs_quint.Base.Text.{Text, codes, empty, is_lower}
use fs_quint.Host.{Proc}
use fs_quint.Usage.{Tried, configuration, done, threw}
use fs_quint.Telemetry.Machine.{
  Act, pure, raise, lift, observe, emit, called, completed, Completed, ◌>>=◌, ◌>>◌,
}
use fs_quint.Telemetry.Host.{HostConfig, Env, Helper, absent, unreachable, found}

-- `str` of a value that may be `None`.
unfoldable pub text_of : Option Text → Text
text_of none = codes "None"
text_of (some t) = t

unfoldable pub judged : {S : Type 0} → Tried Completed → Act S Unit
judged (threw e) = raise configuration
judged (done c) = if eqb_ℤ c.status (pos 0) then pure tt else raise configuration

module _ (env : Env) where
  -- A command other than a submission.
  unfoldable pub run : {S : Type 0} → List Text → Act S Proc
  run argv = do p ← observe (λ w. env.proc w argv); emit (called argv); pure p

  -- Exceptions of the command and a failed status are both a `ConfigurationError`.
  unfoldable pub checked : {S : Type 0} → List Text → Act S Unit
  unfolding run judged completed
  checked argv = run argv >>= λ p. judged (completed p)

  unfoldable pub validate_workspace : {S : Type 0} → HostConfig → Act S Unit
  unfolding checked text_of
  validate_workspace config =
      if not config.workspace
      then pure tt
      else checked (
          config.engine ∷ map codes ("telemetry" ∷ "workspace" ∷ "status" ∷ "--config" ∷ [])
          ++ (config.path ∷ codes "--repository" ∷ text_of config.repository ∷ []))

-- A reference is ASCII, so the upper case is that of the ASCII letters.
unfoldable pub credential_environment_name : Text → Text
unfolding is_lower
credential_environment_name reference =
    codes "FSGG_TELEMETRY_CREDENTIAL_"
    ++ map (λ c. if c == b'-' then b'_' else if is_lower c then c - 32 else c) reference

unfoldable pub loaded : Option Text → Bool
loaded none = false
loaded (some t) = not (empty t)

unfoldable pub helper_command : Helper → List Text → Tried (List Text)
helper_command absent command = threw configuration
helper_command unreachable command = threw configuration
helper_command (found h) command =
    if h.symlink || not h.regular || not h.owned || h.writable
    then threw configuration
    else done (h.resolved ∷ codes "exec" ∷ command)

module _ (env : Env) where
  unfoldable pub helped : {S : Type 0} → List Text → Act S (List Text)
  unfolding helper_command
  helped command = observe env.helper >>= λ h. lift (helper_command h command)

  unfoldable pub credited : {S : Type 0} → Option Text → List Text → Act S (List Text)
  unfolding credential_environment_name loaded helped
  credited none command = raise configuration
  credited (some reference) command =
      if empty reference
      then raise configuration
      else if loaded (env.environ (credential_environment_name reference))
      then pure command
      else helped command

module _ (env : Env) (config : HostConfig) where
  unfoldable pub workspace_mutation_command : {S : Type 0} → List Text → Act S (List Text)
  unfolding credited
  workspace_mutation_command command =
      if config.workspace then credited env config.credential_reference command else pure command

  unfoldable pub drain_command : {S : Type 0} → Act S (List Text)
  unfolding workspace_mutation_command text_of
  drain_command =
      if config.workspace
      then workspace_mutation_command (
          config.engine ∷ map codes ("telemetry" ∷ "workspace" ∷ "drain" ∷ "--config" ∷ [])
          ++ (config.path
              ∷ codes "--repository"
              ∷ text_of config.repository
              ∷ codes "--binding-digest"
              ∷ text_of config.binding_digest
              ∷ []))
      else pure (
          config.engine ∷ map codes ("telemetry" ∷ "store" ∷ "drain" ∷ "--store-root" ∷ [])
          ++ (config.store_root ∷ []))

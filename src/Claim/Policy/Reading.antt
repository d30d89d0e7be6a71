-- ===== src/Claim/Policy/Reading.antt =====
-- Loading a policy only reads.
use fs_quint.Base.{Option, none, some, [], ◌∷◌, eqb_ℤ, pos}
use fs_quint.Base.Text.{Text}
use fs_quint.Host.{
  Proc, not_started, timed_out, exited, crash, gate_error, Event, FileRead, os_error, undecodable,
  contents, Env, execute,
}
use fs_quint.Host.Logs.{Logs, Logs-raise, Logs-lift, Logs->>=, Logs-execute, Logs-if}
use fs_quint.Host.Value.{Fields}
use fs_quint.Claim.Transport.Reading.{IsRead, shown}
use fs_quint.Claim.Policy.{read_shown, read_revision, read_contents, read_path, load_routine_policy}

module _ {P : Event → Type 0} (reads : (x : Event) → IsRead x → P x) (env : Env) where
  read_shown-Logs : (p : Proc) → Logs P (read_shown env p)
  unfolding read_shown
  read_shown-Logs not_started = Logs-raise Fields gate_error
  read_shown-Logs timed_out = Logs-raise Fields crash
  read_shown-Logs (exited status out err) =
      Logs-if (eqb_ℤ status (pos 0)) _ _ (Logs-lift _) (Logs-raise Fields gate_error)

  read_revision-Logs : (path revision : Text) → Logs P (read_revision env path revision)
  unfolding read_revision
  read_revision-Logs path revision =
      Logs->>= (execute env _ none) _ (Logs-execute env _ none (reads _ (shown _))) read_shown-Logs

  read_contents-Logs : (r : FileRead) → Logs P (read_contents env r)
  unfolding read_contents
  read_contents-Logs os_error = Logs-raise Fields gate_error
  read_contents-Logs undecodable = Logs-raise Fields crash
  read_contents-Logs (contents source) = Logs-lift _

  read_path-Logs : (path : Text) → Logs P (read_path env path)
  unfolding read_path
  read_path-Logs path = record {
    at = λ w. record { grows = ((read_contents-Logs (env.read_file w path)).at w).grows };
  }

  pub load_routine_policy-Logs :
      (path : Text) (revision : Option Text) → Logs P (load_routine_policy env path revision)
  unfolding load_routine_policy
  load_routine_policy-Logs path none = read_path-Logs path
  load_routine_policy-Logs path (some []) = read_path-Logs path
  load_routine_policy-Logs path (some (c ∷ r)) = read_revision-Logs path (c ∷ r)

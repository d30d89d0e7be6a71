-- ===== src/Telemetry/Ahead/Quiet.antt =====
-- Actions that save no state and submit nothing keep the state in memory with its file.
use fs_quint.Base.{◌≡◌, refl, not, Option, none, some, List, ◌∷◌, pos, eqb_ℤ}
use fs_quint.Base.Text.{Text, empty}
use fs_quint.Host.Value.{Json}
use fs_quint.Usage.{Fault, Tried, configuration, done, threw}
use fs_quint.Telemetry.Machine.{
  State, wrote, called, Log, observe, stored, completed, Completed, ◌>>=◌,
}
use fs_quint.Telemetry.Host.{Env, HostConfig, Write, written, unwritten, written_then}
use fs_quint.Telemetry.Command.{
  workspace_mutation_command, credited, helped, helper_command, loaded, credential_environment_name,
  drain_command, validate_workspace, run, judged, checked,
}
use fs_quint.Telemetry.Files.{write_private_json, place}
use fs_quint.Telemetry.Runs.{Runs, Runs-pure, Runs-raise, Runs-if, Runs-lift}
use fs_quint.Telemetry.Ahead.{Synced, Safe}
use fs_quint.Telemetry.Ahead.Saving.{Synced-Safe, in_private-Runs}

-- The state is the one before, and still agrees with its file.
pub record Held (d e : State) (w : Log) : Type 0 where
  pub unchanged : e ≡ d
  pub synced : Synced d w

module _ (env : Env) where
  module _ {S : Type 0} {Q : List Text → S → Log → Type 0} {E : Fault → S → Log → Type 0} (d : S)
      (w : Log) (q : (argv : List Text) → Q argv d w) (e : (f : Fault) → E f d w) where
    credited-Runs : (o : Option Text) (command : List Text) → Runs Q E (credited env o command) d w
    unfolding credited helped
    credited-Runs none command = Runs-raise configuration d w (e configuration)
    credited-Runs (some reference) command =
        Runs-if (empty reference) _ _ d w (λ h. Runs-raise configuration d w (e configuration))
          (λ h.
            Runs-if (loaded (env.environ (credential_environment_name reference))) _ _ d w
              (λ k. Runs-pure command d w (q command))
              (λ k. record {
                after =
                    (Runs-lift {S = S} (helper_command (env.helper w) command) d w (λ a r. q a)
                      e).after;
              }))

    -- Finding the command changes nothing.
    pub mutation-Runs :
        (config : HostConfig) (command : List Text)
        → Runs Q E (workspace_mutation_command env config command) d w
    unfolding workspace_mutation_command
    mutation-Runs config command =
        Runs-if config.workspace _ _ d w (λ h. credited-Runs config.credential_reference command)
          (λ h. Runs-pure command d w (q command))

    pub drain-Runs : (config : HostConfig) → Runs Q E (drain_command env config) d w
    unfolding drain_command
    drain-Runs config =
        Runs-if config.workspace _ _ d w (λ h. mutation-Runs config _) (λ h. Runs-pure _ d w (q _))

  judged-Held :
      (r : Tried Completed) (d : State) (w : Log)
      → Synced d w
      → Runs (λ a. Held d) (λ f. Safe) (judged r) d w
  unfolding judged
  judged-Held (threw f) d w s = Runs-raise configuration d w (Synced-Safe d w s)
  judged-Held (done c) d w s =
      Runs-if (eqb_ℤ c.status (pos 0)) _ _ d w
        (λ h. Runs-pure tt d w (record { unchanged = refl; synced = s }))
        (λ h. Runs-raise configuration d w (Synced-Safe d w s))

  Synced-called : (d : State) (w : Log) (argv : List Text) → Synced d w → Synced d (called argv ∷ w)
  unfolding stored
  Synced-called d w argv s = record { ahead = (tt, s.ahead); agrees = s.agrees }

  checked-Held :
      (argv : List Text) (d : State) (w : Log)
      → Synced d w
      → Runs (λ a. Held d) (λ f. Safe) (checked env argv) d w
  unfolding checked run
  checked-Held argv d w s = record {
    after =
        (judged-Held (completed (env.proc w argv)) d (called argv ∷ w)
          (Synced-called d w argv s)).after;
  }

  pub validate_workspace-Held :
      (config : HostConfig) (d : State) (w : Log)
      → Synced d w
      → Runs (λ a. Held d) (λ f. Safe) (validate_workspace env config) d w
  unfolding validate_workspace
  validate_workspace-Held config d w s =
      Runs-if (not config.workspace) _ _ d w
        (λ h. Runs-pure tt d w (record { unchanged = refl; synced = s }))
        (λ h. checked-Held _ d w s)

  Synced-wrote :
      (d : State) (w : Log) (folder name : Text) (j : Json)
      → Synced d w
      → Synced d (wrote folder name j ∷ w)
  unfolding stored
  Synced-wrote d w folder name j s = record { ahead = (tt, s.ahead); agrees = s.agrees }

  place-Held :
      (r : Write) (folder name : Text) (j : Json) (d : State) (w : Log)
      → Synced d w
      → Runs (λ a. Held d) (λ f. Safe) (place r (wrote folder name j)) d w
  unfolding place
  place-Held written folder name j d w s = record {
    after = record { unchanged = refl; synced = Synced-wrote d w folder name j s };
  }
  place-Held (unwritten f) folder name j d w s = record { after = Synced-Safe d w s }
  place-Held (written_then f) folder name j d w s = record {
    after = Synced-Safe d (wrote folder name j ∷ w) (Synced-wrote d w folder name j s);
  }

  pub write-Held :
      (folder name : Text) (j : Json) (d : State) (w : Log)
      → Synced d w
      → Runs
          (λ a. Held d)
          (λ f. Safe)
          (write_private_json env folder name (wrote folder name j))
          d
          w
  unfolding write_private_json
  write-Held folder name j d w s = record {
    after =
        (in_private-Runs (env.directory w folder)
          (observe (λ v. env.write v folder name) >>= λ r. place r (wrote folder name j)) d w
          (λ f. Synced-Safe d w s)
          (record {
            after = (place-Held (env.write w folder name) folder name j d w s).after;
          })).after;
  }

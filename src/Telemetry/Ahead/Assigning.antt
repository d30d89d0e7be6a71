-- ===== src/Telemetry/Ahead/Assigning.antt =====
-- Creating an assignment keeps the discipline.
use fs_quint.Base.{not, pos, eqb_ℤ, ◌∷◌}
use fs_quint.Base.Text.{Text, codes}
use fs_quint.Host.Value.{Json}
use fs_quint.Usage.{Tried, configuration, done, threw}
use fs_quint.Telemetry.Machine.{Log, Completed, completed, called, wrote, observe, ◌>>=◌}
use fs_quint.Telemetry.Host.{Env, HostConfig, Write, written, unwritten, written_then}
use fs_quint.Telemetry.Command.{validate_workspace, checked, judged, run}
use fs_quint.Telemetry.Files.{write_private_json, place}
use fs_quint.Telemetry.CiAssignment.{Assigned, ci_schema, assignment_payload, safe_name}
use fs_quint.Telemetry.CiAssignment.Create.{create_assignment, create_ci}
use fs_quint.Telemetry.Runs.{Runs-pure, Runs-raise, Runs-if}
use fs_quint.Telemetry.Ahead.{Ahead}
use fs_quint.Telemetry.Ahead.Saving.{in_private-Runs}
use fs_quint.Telemetry.Ahead.Operations.{Keeps, Keeps->>=}
use fs_quint.Telemetry.Ahead.Commands.{lift-Keeps}

judged-Keeps : (r : Tried Completed) (w : Log) → Ahead w → Keeps (judged r) w
unfolding judged
judged-Keeps (threw f) w a = Runs-raise configuration tt w a
judged-Keeps (done c) w a =
    Runs-if (eqb_ℤ c.status (pos 0)) _ _ tt w (λ h. Runs-pure tt tt w a)
      (λ h. Runs-raise configuration tt w a)

place-Keeps :
    (r : Write) (folder name : Text) (j : Json) (w : Log)
    → Ahead w
    → Keeps (place r (wrote folder name j)) w
unfolding place
place-Keeps written folder name j w a = record { after = (tt, a) }
place-Keeps (unwritten f) folder name j w a = record { after = a }
place-Keeps (written_then f) folder name j w a = record { after = (tt, a) }

module _ (env : Env) (config : HostConfig) where
  validate_workspace-Keeps : (w : Log) → Ahead w → Keeps (validate_workspace env config) w
  unfolding validate_workspace checked run
  validate_workspace-Keeps w a =
      Runs-if (not config.workspace) _ _ tt w (λ h. Runs-pure tt tt w a)
        (λ h. record {
          after = (judged-Keeps (completed (env.proc w _)) (called _ ∷ w) (tt, a)).after;
        })

  write-Keeps :
      (folder name : Text) (j : Json) (w : Log)
      → Ahead w
      → Keeps (write_private_json env folder name (wrote folder name j)) w
  unfolding write_private_json
  write-Keeps folder name j w a = record {
    after =
        (in_private-Runs (env.directory w folder)
          (observe (λ v. env.write v folder name) >>= λ r. place r (wrote folder name j)) tt w
          (λ f. a)
          (record {
            after = (place-Keeps (env.write w folder name) folder name j w a).after;
          })).after;
  }

  pub create_ci-Keeps : (x : Assigned) (w : Log) → Ahead w → Keeps (create_ci env config x) w
  unfolding create_ci create_assignment
  create_ci-Keeps x w a =
      Keeps->>= (validate_workspace env config) _ w (validate_workspace-Keeps w a) (λ t v b.
        lift-Keeps env config (assignment_payload ci_schema x) _ v b (λ payload.
          Keeps->>= (write_private_json env (codes "assignments") (safe_name x) _) _ v
            (write-Keeps (codes "assignments") (safe_name x) payload v b)
            (λ r u c. Runs-pure (safe_name x) tt u c)))

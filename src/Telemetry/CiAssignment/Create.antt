-- ===== src/Telemetry/CiAssignment/Create.antt =====
-- fsgg_telemetry_defaults.py `create_assignment`, and roadmap-telemetry.py `create_ci`.
use fs_quint.Base.Text.{Text, codes}
use fs_quint.Telemetry.Machine.{Act, pure, lift, wrote, ◌>>=◌}
use fs_quint.Telemetry.Host.{HostConfig, Env}
use fs_quint.Telemetry.Command.{validate_workspace}
use fs_quint.Telemetry.Files.{write_private_json}
use fs_quint.Telemetry.CiAssignment.{Assigned, ci_schema, assignment_payload, safe_name}

module _ (env : Env) (config : HostConfig) where
  -- The name of the file that was written, without its directory and its suffix.
  unfoldable pub create_assignment : Text → Assigned → Act Unit Text
  unfolding validate_workspace write_private_json assignment_payload safe_name
  create_assignment schema a = validate_workspace env config >>= λ v.
      lift (assignment_payload schema a) >>= λ payload.
      write_private_json env (codes "assignments") (safe_name a)
        (wrote (codes "assignments") (safe_name a) payload)
      >>= λ r. pure (safe_name a)

  unfoldable pub create_ci : Assigned → Act Unit Text
  unfolding create_assignment
  create_ci = create_assignment ci_schema

-- ===== src/Telemetry/Dashboard.antt =====
-- roadmap-telemetry.py `refresh_dashboard`: advisory, so no failure of the subprocess is raised.
use fs_quint.Base.{
  pos, not, ◌||◌, ◌&&◌, Option, none, some, List, [], ◌∷◌, map, ltb, eqb_ℤ, if◌then◌else◌,
}
use fs_quint.Base.Text.{Text, codes, same_set}
use fs_quint.Host.{Proc, exited}
use fs_quint.Host.Value.{Json, obj, Fields, get_or_null, is_text, keys}
use fs_quint.Telemetry.Machine.{Act, pure, ◌>>=◌}
use fs_quint.Telemetry.Host.{Env, HostConfig}
use fs_quint.Telemetry.Command.{run}
use fs_quint.Telemetry.Assignment.{utf8_length}

pub data Dashboard : Type 0 where
  subprocess_failed result_invalid : Dashboard
  observed : Fields → Dashboard

health : Option Json → Dashboard
unfolding same_set keys is_text get_or_null
health none = subprocess_failed
health (some (obj fs)) =
    if same_set (keys fs) (
        map codes
          ("schema" ∷ "status" ∷ "reason" ∷ "observedAt" ∷ "publicRevision" ∷ "commit" ∷ []))
      && is_text (codes "fsgg.telemetry.dashboard-event-health/1") (get_or_null (codes "schema") fs)
    then observed fs
    else result_invalid
health (some _) = result_invalid

unfoldable pub dashboard_of : Env → Proc → Dashboard
unfolding utf8_length health
dashboard_of env (exited status out err) =
    if not (eqb_ℤ status (pos 0)) || ltb 8192 (utf8_length out)
    then subprocess_failed
    else health (env.loads out)
dashboard_of env _ = subprocess_failed

module _ (env : Env) (config : HostConfig) where
  unfoldable pub dashboard_command : List Text
  dashboard_command =
      env.executable ∷ env.dashboard ∷ codes "publisher-event" ∷ codes "--config" ∷ config.path ∷ []

  unfoldable pub refresh_dashboard : Act Unit Dashboard
  unfolding run dashboard_of dashboard_command
  refresh_dashboard = do p ← run env dashboard_command; pure (dashboard_of env p)

-- ===== src/Telemetry/Files.antt =====
-- fsgg_telemetry_defaults.py `write_private_json`, and roadmap-telemetry.py `state_path`,
-- `read_state` and `save_state`. The state files are what the script saved itself, so their shape
-- is that of `State`.
use fs_quint.Base.{
  ◌||◌, ◌&&◌, not, Bool, true, false, Option, none, some, ◌==◌, length, all, if◌then◌else◌,
}
use fs_quint.Base.Text.{Text, codes, same, is_hex}
use fs_quint.Usage.{Tried, configuration, crash, done, threw}
use fs_quint.Telemetry.Machine.{
  State, Event, saved, Act, raise, lift, inspect, observe, emit, stored, ◌>>=◌, ◌>>◌,
}
use fs_quint.Telemetry.Host.{
  HostConfig, Env, Directory, unmade, shared, private, Write, written, unwritten, written_then,
  Access, withheld, unreadable, undecodable, readable,
}

-- `a == b` on texts that may be `None`.
unfoldable pub same_option : Option Text → Option Text → Bool
unfolding same
same_option none none = true
same_option (some s) (some t) = same s t
same_option _ _ = false

module _ {S : Type 0} where
  unfoldable pub place : Write → Event → Act S Unit
  place written e = emit e
  place (unwritten f) e = raise f
  place (written_then f) e = emit e >> raise f

  unfoldable pub in_private : Directory → Act S Unit → Act S Unit
  in_private (unmade f) m = raise f
  in_private shared m = raise configuration
  in_private private m = m

module _ (env : Env) where
  -- The event stands for the file in place.
  unfoldable pub write_private_json : {S : Type 0} → Text → Text → Event → Act S Unit
  unfolding place in_private
  write_private_json directory prefix e = observe (λ w. env.directory w directory) >>= λ d.
      in_private d (observe (λ w. env.write w directory prefix) >>= λ r. place r e)

  unfoldable pub save_state : Act State Unit
  unfolding write_private_json
  save_state = inspect λ d. write_private_json (codes "orchestrator-dispatches") d.token (saved d)

-- `[0-9a-f]{32}`
unfoldable pub is_token : Text → Bool
unfolding is_hex
is_token t = length t == 32 && all is_hex t

-- What `read_state` makes of a file of that token.
unfoldable pub admit_state : HostConfig → Access → Option State → Tried State
unfolding same_option
admit_state config withheld file = threw configuration
admit_state config unreadable file = threw configuration
admit_state config undecodable file = threw crash
admit_state config readable none = threw configuration
admit_state config readable (some d) =
    if config.workspace
      && (not (same_option d.identity.association_producer config.producer)
          || not (same_option d.identity.association_digest config.binding_digest))
    then threw configuration
    else done d

module _ (env : Env) (config : HostConfig) where
  unfoldable pub read_state : Text → Act Unit State
  unfolding is_token admit_state stored
  read_state token =
      if is_token token
      then (observe (λ w. admit_state config (env.access w token) (stored token w)) >>= lift)
      else raise configuration

-- ===== src/Telemetry/Ahead/Operations.antt =====
-- Reading state files, and commands without a publication, keep the discipline.
use fs_quint.Base.{
  ◌≡◌, refl, ap, ◌∙◌, arith, Bool, Bool-cases, inl, inr, Option, none, some, List, [], ◌∷◌,
}
use fs_quint.Base.Text.{Text, same, same_iff}
use fs_quint.Usage.{Tried, configuration, done, threw}
use fs_quint.Telemetry.Machine.{
  State, saved, submitted, called, wrote, Log, Act, pure, lift, using, stored, completed, ◌>>=◌,
}
use fs_quint.Telemetry.Host.{Env, HostConfig, Access, withheld, unreadable, undecodable, readable}
use fs_quint.Telemetry.Command.{run, drain_command}
use fs_quint.Telemetry.Dashboard.{refresh_dashboard, dashboard_command, dashboard_of}
use fs_quint.Telemetry.Files.{read_state, admit_state, is_token}
use fs_quint.Telemetry.Lifecycle.{drain, dashboard_if}
use fs_quint.Telemetry.Runs.{After, Runs, Runs-pure, Runs-raise, Runs-if, Runs->>=, Runs-lift}
use fs_quint.Telemetry.Ahead.{standing_in, Ahead, Synced}
use fs_quint.Telemetry.Ahead.Quiet.{drain-Runs}

-- The command keeps the discipline, whether it returns or raises.
abbrev pub Keeps : {A : Type 0} → Act Unit A → Log → Type 0
Keeps m w = Runs (λ a s. Ahead) (λ f s. Ahead) m tt w

pub Keeps->>= :
    {A B : Type 0} (m : Act Unit A) (f : A → Act Unit B) (w : Log)
    → Keeps m w
    → ((a : A) (v : Log) → Ahead v → Keeps (f a) v)
    → Keeps (m >>= f) w
Keeps->>= m f w h k = Runs->>= (λ a s. Ahead) m f tt w h (λ a s v r. k a v r)

using-After :
    {A : Type 0} (r : Tried A) (d : State) (w : Log)
    → After (λ a e. Ahead) (λ f e. Ahead) r d w
    → After {S = Unit {0}} (λ a s. Ahead) (λ f s. Ahead) r tt w
using-After (done a) d w h = h
using-After (threw f) d w h = h

pub using-Keeps :
    {A : Type 0} (m : Act State A) (d : State) (w : Log)
    → Runs (λ a e. Ahead) (λ f e. Ahead) m d w
    → Keeps (using d m) w
using-Keeps m d w h = record {
  after = using-After (m d w).result (m d w).state (m d w).log h.after;
}

stored-token : (t : Text) (w : Log) (d : State) → stored t w ≡ some d → d.token ≡ t
unfolding stored
stored-token t [] d h = absurd (ground (arith, h))
stored-token t (saved e ∷ w) d h = elim (Bool-cases (same e.token t)) [
  | inl y ↦ ground (arith, h, y, (same_iff e.token t).0 y)
  | inr n ↦ stored-token t w d (ground (arith, h, n))
]
stored-token t (submitted u b p ∷ w) d h = stored-token t w d h
stored-token t (called argv ∷ w) d h = stored-token t w d h
stored-token t (wrote f n j ∷ w) d h = stored-token t w d h

-- What is in a file agrees with itself.
pub stored-Synced : (t : Text) (d : State) (w : Log) → Ahead w → stored t w ≡ some d → Synced d w
stored-Synced t d w a h = record {
  ahead = a;
  agrees = ap (λ o. standing_in o d.invocation) (ap (λ u. stored u w) (stored-token t w d h) ∙ h);
}

admitted :
    (config : HostConfig) (x : Access) (file : Option State) (d : State)
    → admit_state config x file ≡ done d
    → file ≡ some d
unfolding admit_state
admitted config withheld file d h = absurd (ground (arith, h))
admitted config unreadable file d h = absurd (ground (arith, h))
admitted config undecodable file d h = absurd (ground (arith, h))
admitted config readable none d h = absurd (ground (arith, h))
admitted config readable (some e) d h = ground (arith, h)

-- A state that was read, at the time when it was.
pub record IsRead (w : Log) (d : State) (v : Log) : Type 0 where
  pub unchanged : v ≡ w
  pub synced : Synced d v

module _ (env : Env) (config : HostConfig) where
  pub read_state-IsRead :
      (t : Text) (w : Log)
      → Ahead w
      → Runs (λ d s. IsRead w d) (λ f s. Ahead) (read_state env config t) tt w
  unfolding read_state
  read_state-IsRead t w a =
      Runs-if (is_token t) _ _ tt w
        (λ h. record {
          after =
              (Runs-lift {S = Unit {0}} (admit_state config (env.access w t) (stored t w)) tt w
                (λ d e. record {
                  unchanged = refl;
                  synced =
                      stored-Synced t d w a (admitted config (env.access w t) (stored t w) d e);
                })
                (λ f. a)).after;
        })
        (λ h. Runs-raise configuration tt w a)

  pub run-Keeps : (argv : List Text) (w : Log) → Ahead w → Keeps (run env argv) w
  unfolding run
  run-Keeps argv w a = record { after = (tt, a) }

  pub drain-Keeps : (w : Log) → Ahead w → Keeps (drain env config) w
  unfolding drain
  drain-Keeps w a =
      Keeps->>= (drain_command env config) _ w (drain-Runs env tt w (λ argv. a) (λ f. a) config)
        (λ argv v b.
          Keeps->>= (run env argv) (λ p. lift (completed p)) v (run-Keeps argv v b)
            (λ p u c. Runs-lift (completed p) tt u (λ e h. c) (λ f. c)))

  refresh-Keeps : (w : Log) → Ahead w → Keeps (refresh_dashboard env config) w
  unfolding refresh_dashboard
  refresh-Keeps w a =
      Keeps->>= (run env (dashboard_command env config)) (λ p. pure (dashboard_of env p)) w
        (run-Keeps (dashboard_command env config) w a)
        (λ p v b. Runs-pure (dashboard_of env p) tt v b)

  pub dashboard_if-Keeps : (b : Bool) (w : Log) → Ahead w → Keeps (dashboard_if env config b) w
  unfolding dashboard_if
  dashboard_if-Keeps b w a =
      Runs-if b _ _ tt w
        (λ h.
          Keeps->>= (refresh_dashboard env config) _ w (refresh-Keeps w a)
            (λ r v c. Runs-pure (some r) tt v c))
        (λ h. Runs-pure none tt w a)

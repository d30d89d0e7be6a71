-- ===== src/Telemetry/Stuck.antt =====
-- A dispatch whose pending publication was withdrawn keeps its pending phase.
use fs_quint.Base.{◌≡◌, refl, ap, ◌∙◌, not, ℤ, Option, none, some, eqb_ℤ, pos}
use fs_quint.Base.Text.{Text}
use fs_quint.Usage.{Fault, Tried, configuration, done, threw}
use fs_quint.Telemetry.Machine.{Phase, start_pending, State, Log, lift, Completed, completed, ◌>>=◌}
use fs_quint.Telemetry.Host.{Env, HostConfig}
use fs_quint.Telemetry.Command.{validate_workspace, checked, judged, run}
use fs_quint.Telemetry.Files.{same_option}
use fs_quint.Telemetry.Publish.{publish_pending, pending_of, submit, answer}
use fs_quint.Telemetry.Lifecycle.{start_child, start_in, finish_child, finish_in}
use fs_quint.Telemetry.Runs.{After, Runs, Runs-pure, Runs-raise, Runs-if, Runs->>=}

-- Only this exception comes of it.
IsFault : Fault → State → Log → Type 0
IsFault f t v = f ≡ configuration

Never : {A : Type 0} → A → State → Log → Type 0
Never a t v = ⊥

failed :
    {A : Type 0} (r : Tried A) (d : State) (w : Log)
    → After Never IsFault r d w
    → r ≡ threw configuration
unfolding Never IsFault
failed (done a) d w h = absurd h
failed (threw f) d w h = ap threw h

judged-Same :
    (r : Tried Completed) (d : State) (w : Log) → Runs (λ a t v. t ≡ d) IsFault (judged r) d w
unfolding judged IsFault
judged-Same (threw f) d w = Runs-raise configuration d w refl
judged-Same (done c) d w =
    Runs-if (eqb_ℤ c.status (pos 0)) _ _ d w (λ h. Runs-pure tt d w refl)
      (λ h. Runs-raise configuration d w refl)

validate_workspace-Same :
    (env : Env) (config : HostConfig) (d : State) (w : Log)
    → Runs (λ a t v. t ≡ d) IsFault (validate_workspace env config) d w
unfolding validate_workspace checked run
validate_workspace-Same env config d w =
    Runs-if (not config.workspace) _ _ d w (λ h. Runs-pure tt d w refl)
      (λ h. record { after = (judged-Same (completed (env.proc w _)) d _).after })

module _ (env : Env) (config : HostConfig) where
  no_intent : (d : State) → d.pending ≡ none → pending_of env config d ≡ threw configuration
  unfolding pending_of
  no_intent d h = rw h refl

  unsent :
      (d t : State) (v : Log)
      → d.pending ≡ none
      → t ≡ d
      → Runs Never IsFault
          (lift (pending_of env config t) >>= λ p.
            submit env config t p >>= λ c. answer env config p c)
          t
          v
  unfolding IsFault
  unsent d t v h e = rw (no_intent t (ap (λ x. x.pending) e ∙ h)) (record { after = refl })

  publish_pending-Never :
      (d : State) (w : Log) → d.pending ≡ none → Runs Never IsFault (publish_pending env config) d w
  unfolding publish_pending
  publish_pending-Never d w h =
      Runs->>= (λ a t v. t ≡ d) (validate_workspace env config) _ d w
        (validate_workspace-Same env config d w)
        (λ a t v e. record { after = (unsent d t v h e).after })

  start_in-Never :
      (p : Phase) (native : Text) (d : State) (w : Log)
      → p ≡ start_pending
      → d.pending ≡ none
      → Runs Never IsFault (start_in env config p native d) d w
  unfolding start_in IsFault
  start_in-Never p native d w e h = rw e (
      Runs-if (same_option d.native_id (some native)) _ _ d w (λ k. publish_pending-Never d w h)
        (λ k. Runs-raise configuration d w refl))

-- A dispatch that waits for its start without a pending publication can neither start nor finish:
-- every attempt ends with a `ConfigurationError`.
pub stuck-fails :
    (env : Env) (config : HostConfig) (d : State) (native outcome : Text) (code : Option ℤ)
    (w : Log)
    → d.phase ≡ start_pending
    → d.pending ≡ none
    → ((start_child env config native d d w).result ≡ threw configuration)
      × ((finish_child env config code outcome d d w).result ≡ threw configuration)
unfolding start_child finish_child finish_in
stuck-fails env config d native outcome code w p h = (
  failed (start_in env config d.phase native d d w).result _ _
      (start_in-Never env config d.phase native d w p h).after,
  rw p refl,
)

-- ===== src/Claim/Verdict/Reading.antt =====
-- An evaluation only reads.
use fs_quint.Base.{ℤ, Bool, Option, none, some}
use fs_quint.Base.Text.{Text}
use fs_quint.Host.{Datetime, Event, Env, lift}
use fs_quint.Host.Logs.{Logs, Logs-pure, Logs-lift, Logs->>=}
use fs_quint.Claim.Transport.{gh_api}
use fs_quint.Claim.Transport.Reading.{IsRead, listed, gh_api-Logs}
use fs_quint.Claim.Marker.{find_authorizations}
use fs_quint.Claim.Comments.{Claimant}
use fs_quint.Claim.State.{ClaimState, held, expired, released, read_claim_state, clock}
use fs_quint.Claim.Verdict.{
  Args, Checked, refused, authorizes, check_markers, judged, classify, evaluate, deadline_of,
  deadline_lines,
}

module _ {P : Event → Type 0} (reads : (x : Event) → IsRead x → P x) (env : Env) where
  pub clock-Logs : (now : Option Datetime) → Logs P (clock env now)
  unfolding clock
  clock-Logs (some at) = Logs-pure at
  clock-Logs none = record { at = λ w. record { grows = ((Logs-pure (env.wall w)).at w).grows } }

  read_claim_state-Logs :
      (repo : Text) (n fallback : ℤ) (cli : Bool) (now : Option Datetime)
      → Logs P (read_claim_state env repo n fallback cli now)
  unfolding read_claim_state
  read_claim_state-Logs repo n fallback cli now =
      Logs->>= (gh_api env _) _ (gh_api-Logs reads env _ (listed _ _)) λ raw.
        Logs->>= (clock env now) _ (clock-Logs now)
          λ at. Logs->>= (lift _) _ (Logs-lift _) λ claims. Logs-pure _

  judged-Logs : (a : Args) (c : Checked) → Logs P (judged env a c)
  unfolding judged
  judged-Logs a (refused f) = Logs-pure _
  judged-Logs a (authorizes gen) =
      Logs->>= (read_claim_state env a.repo a.item_number a.lease_minutes a.lease_from_cli a.now) _
        (read_claim_state-Logs a.repo a.item_number a.lease_minutes a.lease_from_cli a.now)
        (λ x. Logs-pure _)

  classify-Logs : (a : Args) (body : Text) → Logs P (classify env a body)
  unfolding classify
  classify-Logs a body = judged-Logs a (check_markers a (find_authorizations body))

  pub evaluate-Logs : (a : Args) (body : Text) → Logs P (evaluate env a body)
  unfolding evaluate
  evaluate-Logs a body = record { at = λ w. record { grows = ((classify-Logs a body).at w).grows } }

  deadline_of-Logs :
      (now : Option Datetime) (c : Claimant) (e : Option Datetime)
      → Logs P (deadline_of env now c e)
  unfolding deadline_of
  deadline_of-Logs now c none = Logs-pure _
  deadline_of-Logs now c (some e) = Logs->>= (clock env now) _ (clock-Logs now) (λ at. Logs-pure _)

  pub deadline_lines-Logs : (a : Args) (s : Option ClaimState) → Logs P (deadline_lines env a s)
  unfolding deadline_lines
  deadline_lines-Logs a none = Logs-pure _
  deadline_lines-Logs a (some (held c)) = deadline_of-Logs a.now c c.expires_at
  deadline_lines-Logs a (some (expired c)) = Logs-pure _
  deadline_lines-Logs a (some released) = Logs-pure _

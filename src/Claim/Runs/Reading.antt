-- ===== src/Claim/Runs/Reading.antt =====
-- What the sweep reads, it only reads.
use fs_quint.Base.Text.{Text}
use fs_quint.Host.{Event, Env, lift}
use fs_quint.Host.Logs.{Logs, Logs-pure, Logs-lift, Logs->>=}
use fs_quint.Claim.Transport.{gh_api}
use fs_quint.Claim.Transport.Reading.{IsRead, listed, fetched, gh_api-Logs}
use fs_quint.Claim.Runs.{open_item_prs, standing_conclusion}

module _ {P : Event → Type 0} (reads : (x : Event) → IsRead x → P x) (env : Env) where
  pub standing-Logs : (repo sha : Text) → Logs P (standing_conclusion env repo sha)
  unfolding standing_conclusion
  standing-Logs repo sha =
      Logs->>= (gh_api env _) _ (gh_api-Logs reads env _ (fetched _ _))
        λ raw. Logs->>= (lift _) _ (Logs-lift _) λ keyed. Logs-pure _

  pub open_item_prs-Logs : (repo : Text) → Logs P (open_item_prs env repo)
  unfolding open_item_prs
  open_item_prs-Logs repo =
      Logs->>= (gh_api env _) _ (gh_api-Logs reads env _ (listed _ _)) λ raw. Logs-pure _

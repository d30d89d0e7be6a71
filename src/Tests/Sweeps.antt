-- ===== src/Tests/Sweeps.antt =====
-- Sweeps over one pull request.
use fs_quint.Base.{some, none}
use fs_quint.Host.{ran}
use fs_quint.Claim.Sweep.Complete.{sweep_item-revokes}
use fs_quint.Claim.Sweep.{success}
use fs_quint.Claim.Runs.{standing_conclusion}
use fs_quint.Claim.Verdict.{Verdict, no_authorization, evaluate}
use fs_quint.Claim.Verdict.{judged}
use fs_quint.Claim.Marker.{find_authorizations}
use fs_quint.Claim.Verdict.{check_markers}
use fs_quint.Claim.Transport.{respond, reply}
use fs_quint.Base.{◌≡◌, refl, false, [], ◌∷◌}
use fs_quint.Base.Text.{codes}
use fs_quint.Host.{value}
use fs_quint.Host.Value.{str}
use fs_quint.Host.Logs.{Extends}
use fs_quint.Claim.Sweep.{Sweep, Counts, sweep_item, sweep_all}
use fs_quint.Claim.Sweep.Reads.{Publishes, posting, failed_run}
use fs_quint.Claim.Sweep.Revokes.{sweep_all-revokes}
use fs_quint.Tests.{host, sha, options, args}

abbrev sweep : Sweep
sweep = record { options = options; dry_run = false; message = λ a f. codes "no marker" }

abbrev one_change : Counts
one_change = record { looked = 1; changed = 1; skipped = 0; crashed = 0 }

sweep_all-revokes_example : Extends (Publishes host sweep []) [] (sweep_all host sweep []).world
sweep_all-revokes_example = sweep_all-revokes host sweep []

abbrev unmarked : Verdict
unmarked = record { finding = some no_authorization; state = none }

unmarked_refuses : (evaluate host args (codes "no marker") []).result ≡ value unmarked
unfolding evaluate judged check_markers find_authorizations
unmarked_refuses = refl

success_stands :
    (standing_conclusion host sweep.options.repo sha
      (evaluate host args (codes "no marker") []).world).result
    ≡ value (some success)
unfolding evaluate standing_conclusion respond reply
success_stands = refl

sweep_item-revokes_example :
    (sweep_item host sweep args sha (str (codes "no marker")) []).world
    ≡ ran (posting sweep) (some (failed_run sweep args sha no_authorization))
      ∷ (standing_conclusion host sweep.options.repo sha
          (evaluate host args (codes "no marker") []).world).world
sweep_item-revokes_example =
    sweep_item-revokes host sweep args sha (codes "no marker") [] unmarked no_authorization refl
      unmarked_refuses refl success_stands

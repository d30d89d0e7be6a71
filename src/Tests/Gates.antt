-- ===== src/Tests/Gates.antt =====
-- The theorems of the gates at concrete inputs.
use fs_quint.Claim.Verdict.{judged}
use fs_quint.Base.{inl}
use fs_quint.Host.Logs.{Extends}
use fs_quint.Claim.Transport.Reading.{IsRead}
use fs_quint.Claim.Main.Reads.{main-IsRead}
use fs_quint.Envelope
use fs_quint.Envelope.Trust.{Trusted, main-Trusted}
use fs_quint.Envelope.{Envelope}
use fs_quint.Claim.State.{held}
use fs_quint.Claim.Verdict.Passes.{Authorized, evaluate-passes}
use fs_quint.Claim.Verdict.{Verdict}
use fs_quint.Tests.{winner, args, marker, older_sha}
use fs_quint.Base.{◌↔◌}
use fs_quint.Claim.State.{lowest}
use fs_quint.Claim.Transport.{respond}
use fs_quint.Claim.Shape.{is_gen, is_item}
use fs_quint.Host.Value.{as_text, as_number, get_or_null, show_number}
use fs_quint.Claim.Comments.{
  decoded, read_claims, read_comment, read_object, read_claim, timing, timed, has_lapsed, claimant,
  keep,
}
use fs_quint.Claim.Transport.{gh_api, reply}
use fs_quint.Claim.Marker.{find_authorizations, claim_marker, get}
use fs_quint.Claim.Verdict.{item_args, evaluate, classify, check_markers, grade, deadline_lines}
use fs_quint.Base.Text.Decimal.{show_int}
use fs_quint.Base.Text.{lower, contains, same}
use fs_quint.Claim.Shape.{is_head_sha, routine_branch, item_branch}
use fs_quint.Claim.Lease.{
  lease_minutes, expiry_of, parse_instant, seconds_between, instant, marker_lease,
}
use fs_quint.Claim.State.{
  clock, read_claim_state, claim_state, live_claims, lapsed_claims, live_state, generation,
}
use fs_quint.Claim.Routine.{blank, or_blank}
use fs_quint.Claim.Main.{
  reported, under_lease, instant_option, at_instant, require, expiry_known, previous_accepted,
  given_lease, sweep_or_judge, head_given, read_body, judge, judge_item, item_verdict, report_item,
  unreadable, report_code,
}
use fs_quint.Gate.{code}
use fs_quint.Base.{◌≡◌, refl, pos, false, none, some, []}
use fs_quint.Base.Text.{codes}
use fs_quint.Host.{value}
use fs_quint.Gate.{ok, code}
use fs_quint.Claim.Main.{Cli, main}
use fs_quint.Claim.Main.Exits.{Granted, main-Granted}
use fs_quint.Tests.{host, sha}

abbrev cli : Cli
cli = record {
  repo = codes "o/r";
  head_ref = some (codes "item/7-x");
  head_sha = some sha;
  base_sha = none;
  routine_policy = [];
  routine_policy_ref = none;
  routine_previous_head = none;
  body = none;
  lease_minutes = none;
  now = none;
  sweep = false;
  dry_run = false;
  lease_env = none;
}

cli_passes : (main host (λ a f. []) cli []).result ≡ value (code ok)
unfolding code main reported lease_minutes under_lease instant_option blank or_blank clock
    at_instant require expiry_known expiry_of previous_accepted given_lease sweep_or_judge
    head_given is_head_sha lower read_body judge routine_branch item_args item_branch judge_item
    item_verdict evaluate classify check_markers find_authorizations read_claim_state gh_api reply
    contains same decoded read_claims read_comment read_object claim_marker as_text as_number
    get_or_null get read_claim timing timed parse_instant seconds_between instant marker_lease
    claim_state live_claims lapsed_claims has_lapsed live_state grade generation report_item
    unreadable report_code deadline_lines show_number show_int claimant keep is_gen is_item respond
    lowest judged
cli_passes = refl

cli_branch : item_branch (or_blank cli.head_ref) ≡ some (codes "7")
unfolding item_branch or_blank
cli_branch = refl

main-Granted_example : Granted host (λ a f. []) cli (codes "7") []
main-Granted_example = main-Granted host (λ a f. []) cli [] (codes "7") refl cli_branch cli_passes

abbrev passing : Verdict
passing = record { finding = none; state = some (held winner) }

args_pass : (evaluate host args marker []).result ≡ value passing
unfolding evaluate check_markers find_authorizations is_gen lower is_item read_claim_state respond
    reply read_comment read_object as_text get_or_null claim_marker as_number read_claim timing
    parse_instant timed expiry_of marker_lease grade live_state live_claims keep has_lapsed claimant
    seconds_between lowest judged
args_pass = refl

evaluate-passes_example : (passing.finding ≡ none) ↔ Authorized host args marker [] passing
evaluate-passes_example = evaluate-passes host args marker [] passing args_pass

abbrev envelope : Envelope
envelope = record {
  git_dir = codes ".";
  repository = codes "o/r";
  default_branch = codes "main";
  base_ref = codes "main";
  base_revision = codes "main";
  base_sha = older_sha;
  head_ref = codes "routine/x";
  head_revision = codes "head";
  head_sha = sha;
  body = codes "body";
  validator = codes "validator";
  previous_head = some older_sha;
}

envelope_ends : (Envelope.main host (codes "python") envelope []).result ≡ value (pos 0)
unfolding Envelope.main contains
envelope_ends = refl

main-Trusted_example : Trusted host (codes "python") envelope [] (pos 0)
main-Trusted_example = main-Trusted host (codes "python") envelope [] (pos 0) envelope_ends

main-IsRead_example : Extends IsRead [] (main host (λ a f. []) cli []).world
main-IsRead_example = main-IsRead host (λ a f. []) cli [] (inl refl)

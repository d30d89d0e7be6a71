-- ===== src/Tests/Routines.antt =====
-- A routine pull routine_request under a policy that says all that it must.
use fs_quint.Claim.Main.{judge, report_code}
use fs_quint.Base.Text.{lower}
use fs_quint.Claim.Shape.{is_head_sha}
use fs_quint.Claim.State.{clock}
use fs_quint.Claim.Lease.{lease_minutes, expiry_of}
use fs_quint.Claim.Main.{
  reported, under_lease, instant_option, at_instant, require, expiry_known, previous_accepted,
  sweep_or_judge, head_given, read_body,
}
use fs_quint.Base.{false}
use fs_quint.Gate.{ok, code}
use fs_quint.Claim.Shape.{routine_branch}
use fs_quint.Claim.Routine.{or_blank, blank}
use fs_quint.Claim.Main.Routes.{Admitted, main-Admission}
use fs_quint.Claim.Main.{Cli, request, main}
use fs_quint.Base.Text.{contains}
use fs_quint.Base.{◌≡◌, refl, true, none, some, List, [], ◌∷◌, ◌++◌}
use fs_quint.Base.Text.{Text, codes}
use fs_quint.Host.{Env, contents, value}
use fs_quint.Host.Value.{Json, bool, str, arr, obj, Items, nil, cons, field, end}
use fs_quint.Claim.Policy.{policy_schema, not_required, heavy_non_triggers}
use fs_quint.Claim.Routine.{Request, RoutineVerdict, admitted, evaluate_routine, is_admitted}
use fs_quint.Claim.Routine.Admission.{evaluate_routine-Admission}
use fs_quint.Claim.Routine.Evidence.{Admission}
use fs_quint.Tests.{host, sha, older_sha}

abbrev strings : List Text → Items
strings [] = nil
strings (s ∷ ss) = cons (str s) (strings ss)

abbrev one : Text → Json
one s = arr (cons (str s) nil)

abbrev policy : Json
policy = obj (
    field (codes "schema") (str policy_schema) (
      field (codes "status") (str (codes "active")) (
        field (codes "defaultRoute") (str (codes "routine")) (
          field (codes "branchPrefix") (str (codes "routine/")) (
            field (codes "heavyProcessSelection")
              (obj (
                field (codes "trigger") (str (codes "recorded-explicit-human-instruction")) (
                  field (codes "namedScopeRequired") (bool true)
                    (field (codes "absenceOrAmbiguity") (str (codes "routine")) end))))
              (field (codes "heavyProcessNonTriggers") (arr (strings heavy_non_triggers)) (
                field (codes "notRequired") (arr (strings not_required)) (
                  field (codes "safeguardRule")
                    (str (
                      codes
                        "technical-checks-and-operation-authority-remain-independent-and-fail-closed"))
                    (field (codes "protectedOperationDisposition")
                      (str (codes "affected-effect-remains-pending-until-authorized"))
                      (field (codes "legacyAuthority")
                        (str (codes "evidence-retained-not-a-route-selector"))
                        (field (codes "allowedOperations") (one (codes "edit")) (
                          field (codes "protectedOperations") (one (codes "release")) (
                            field (codes "sensitivePaths") (one (codes "keys")) (
                              field (codes "requiredChecks") (one (codes "build")) end))))))))))))))

abbrev routine_host : Env
routine_host = record host {
  read_file = λ w path. contents (codes "policy");
  loads = λ s. some policy;
}

abbrev routine_request : Request
routine_request = record {
  head_ref = codes "routine/x";
  head_sha = sha;
  base_sha = some older_sha;
  routine_policy = codes "policy.json";
  routine_policy_ref = none;
  previous_head = none;
}

abbrev body : Text
body = codes "<!-- fsgg:routine-development/v1 operation=edit head=" ++ (sha ++ codes " -->")

abbrev verdict : RoutineVerdict
verdict = admitted (codes "edit") (codes "file" ∷ [])

request_ends : (evaluate_routine routine_host routine_request body []).result ≡ value verdict
unfolding evaluate_routine contains
request_ends = refl

verdict_admits : is_admitted verdict ≡ true
unfolding is_admitted
verdict_admits = refl

evaluate_routine-Admission_example : Admission routine_host routine_request body [] verdict
evaluate_routine-Admission_example =
    evaluate_routine-Admission routine_host routine_request body [] verdict request_ends
      verdict_admits

abbrev stdin_host : Env
stdin_host = record routine_host { stdin = some body }

abbrev cli : Cli
cli = record {
  repo = codes "o/r";
  head_ref = some (codes "routine/x");
  head_sha = some sha;
  base_sha = some older_sha;
  routine_policy = codes "policy.json";
  routine_policy_ref = some (codes "main");
  routine_previous_head = none;
  body = none;
  lease_minutes = none;
  now = none;
  sweep = false;
  dry_run = false;
  lease_env = none;
}

cli_branch : routine_branch (or_blank cli.head_ref) ≡ true
unfolding routine_branch or_blank
cli_branch = refl

cli_trusted : blank cli.routine_policy_ref ≡ false
unfolding blank
cli_trusted = refl

cli_passes : (main stdin_host (λ a f. []) cli []).result ≡ value (code ok)
unfolding main reported lease_minutes under_lease instant_option blank clock at_instant require
    expiry_known expiry_of previous_accepted sweep_or_judge head_given is_head_sha lower read_body
    judge routine_branch evaluate_routine request report_code contains
cli_passes = refl

main-Admission_example : Admitted stdin_host (λ a f. []) cli []
main-Admission_example =
    main-Admission stdin_host (λ a f. []) cli [] refl cli_branch cli_trusted cli_passes

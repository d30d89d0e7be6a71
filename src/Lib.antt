-- ===== src/Lib.antt =====
-- FsQuint: the gates that decide whether a pull request may be merged, and the telemetry of dispatches.
--
-- The repository is an F# library; what is modelled here are the Python programs that guard its
-- pull requests, and those that record the dispatches of its roadmap for telemetry.
--
-- scripts/check-claim-generation.py is the required check of a pull request. For a branch
-- `item/<n>-...` it reads one authorization marker in the body, reads the claim comments of item n
-- through the `gh` command, finds the claim that holds the item, and passes if the marker binds that
-- claim, the head and the item. With `--sweep` it evaluates every open pull request again and
-- publishes a failed check run where a standing success does not hold any more. For a branch
-- `routine/...` and a trusted policy revision it decides whether the routine route is open.
-- scripts/lib/gate.py wraps the `main` of each gate in a contract of exit codes.
-- scripts/check-routine-eligibility-envelope.py proves base, head and ancestry with `git` and then
-- runs the first program as its validator.
--
-- Host.antt is what all of them see: an action takes the log of what was done so far and gives a
-- result or an exception, with the longer log. The answers of child processes, the clock, `json.loads`,
-- `datetime.fromisoformat`, files and standard input are fields of a record `Env`; each answer may
-- depend on the whole log. Host/Value.antt has JSON values, Host/Logs.antt the rules for what an action
-- adds to the log. Base.antt has Python's integers and texts, a text being a list of code points.
--
-- Gate.antt and Gate/Census.antt are scripts/lib/gate.py: `ExitCode`, `run`, `SubjectCensus`,
-- `report_ok` and `report_findings`; Gate/Triggers.antt has `triggers`, `load_yaml` and `read_text`.
-- Gate/Codes.antt, Gate/Green.antt and Gate/Triggers/Present.antt prove what they promise.
--
-- The modules under Claim/ are scripts/check-claim-generation.py, a function of the script under its
-- own name in each: Transport (`gh_api`, `gh_api_post`), Lease (`lease_minutes`, `marker_lease`,
-- `expiry_of`, `parse_instant`), Marker and Shape (the regular expressions, as scanners), Comments and
-- State (`read_claim_state`, first the comments and then the choice among the claims), Verdict
-- (`classify`, `evaluate`, `item_args`, `deadline_lines`), Policy and Routine (`load_routine_policy`,
-- `evaluate_routine`), Runs and Sweep (`open_item_prs`, `standing_conclusion`, `sweep_all`), Main
-- (`main`, behind the option parser). The modules below each of these hold its theorems.
--
-- Envelope.antt is scripts/check-routine-eligibility-envelope.py, with its theorem in
-- Envelope/Trust.antt. Tests.antt and the modules below it run everything on a concrete host.
--
-- .agents/skills/work-roadmap/scripts/roadmap-telemetry.py keeps a state file per dispatch and publishes
-- events to a store through an engine. A publication is saved as pending, with the batch, before the
-- engine is called, so that a later run can send the same batch again. Telemetry/Machine.antt has the
-- state, the log and the actions, which change a state in memory and keep the change when they raise;
-- the state file of a token is the one saved last in the log. Telemetry/Host.antt has `HostConfig` and
-- the answers of the host. Each function of the script is in the module named for it: Publish
-- (`prepare_publication`, `publish_pending`, `publish`), Files (`read_state`, `save_state`,
-- `write_private_json`), Command (`validate_workspace`, `workspace_mutation_command`, `drain_command`),
-- Events, Identity, Assignment and Original (`authorized_original`), Matching (`matching_dispatch`),
-- Descent and Begin (`begin`), Lifecycle (`started`, which is `start_dispatch` there, `finish`,
-- `usage_reconcile`), Ledger and Reconcile (`reconcile_usage`), Observed and Observations
-- (`read_contract` to `complication`), Dashboard and Main (`main`). Repository has `workspace_repository`
-- and what it calls, Credential `workspace_credential_reference`, and CiAssignment with
-- CiAssignment/Create `create_ci`. A function with `_in` or `_at` at the end of its name is the body of
-- the one without, for a given state or time.
--
-- Telemetry/Runs.antt has conditions for what an action leaves, with a rule for each way to build one.
-- Telemetry/Ahead.antt states the write-ahead discipline and the modules below it prove it of each
-- operation; Telemetry/History.antt has the logs that runs can leave, where a run may be killed at any
-- event, and the modules below it what holds on them.
--
-- .agents/skills/work-roadmap/scripts/native_collaboration_usage.py tells that script of the token
-- usage of a child: Usage.antt (`counts`) and the modules below it, Server (`AppServer`), Rows and Pages
-- (`page`), Rollout (`rollout_usage`), Tally, Child, Turns and Collect (`collect`). The lines that the
-- App Server writes are a function of the requests so far.
--
-- A state file of a dispatch is private, and the model takes it that only the script writes it: what is
-- read has the shape of `State`. `uuid4` is taken to give a token that has no state file yet, as a named
-- hypothesis. `urlsplit`, SHA-256, Base64 and the YAML library are parameters. The system is POSIX. A
-- child's output is text, as in Host.antt.
--
-- Bounds: the number of attempts of `gh_api` is a field of `Env`, and the loop is by recursion on the
-- attempts that are left, so no fuel is chosen. The pages of a listing are by recursion on the ten
-- requests that the script allows. Every other loop is over a list. Instants are microseconds on the
-- native numbers, and the years 1 to 9999 bound them as in the library. The age of a claim in whole
-- seconds is exact, where the script divides by a float, which is exact for spans below 2 ^ 34 seconds.
--
-- Not modelled: the texts that are printed (a verdict keeps the values that its text mentions, and the
-- text of a published finding is a parameter), the option parser, the working directory of the
-- validator, `workflow_files` and `base_parser` of scripts/lib/gate.py, of the telemetry `discover_config`
-- with `candidate_config_paths`, `population_only` and the option parser, and everything that is not
-- Python.

pub mod Base
pub mod Host
pub mod Gate
pub mod Claim
pub mod Envelope
pub mod Usage
pub mod Telemetry
pub mod Tests

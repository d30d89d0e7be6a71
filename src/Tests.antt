-- ===== src/Tests.antt =====
-- A concrete host and concrete inputs of the scripts.
pub mod Claims
pub mod Gates
pub mod Sweeps
pub mod Telemetries
pub mod Usages
pub mod Credentials
pub mod Triggers
pub mod Repositories
pub mod Routines
pub mod Shared
use fs_quint.Base.{
  ℕ, ◌+◌, ◌*◌, ℤ, pos, Bool, true, false, Option, none, some, List, [], ◌∷◌, ◌++◌, if◌then◌else◌,
  any,
}
use fs_quint.Base.Text.{Text, codes, same, contains}
use fs_quint.Host.{Proc, exited, Datetime, contents, Env, World, Exec}
use fs_quint.Host.Value.{Json, null, int, str, obj, arr, Fields, end, field}
use fs_quint.Claim.Lease.{day, minute, declared}
use fs_quint.Claim.Comments.{Claimant}
use fs_quint.Claim.Verdict.{Args, Options}
use fs_quint.Host.Value.{integer}

abbrev pub sha : Text
sha = codes "0123456789012345678901234567890123456789"

abbrev pub older_sha : Text
older_sha = codes "abcdefabcdefabcdefabcdefabcdefabcdefabcd"

abbrev pub claim : Json
claim = obj (
    field (codes "id") (int (pos 5)) (
      field (codes "body") (str (codes "<!-- fsgg:claim worker=w lease=60 -->"))
        (field (codes "updated_at") (str (codes "2026-01-01")) end)))

abbrev pub standing_run : Json
standing_run = obj (
    field (codes "id") (int (pos 9)) (
      field (codes "conclusion") (str (codes "success"))
        (field (codes "started_at") (str (codes "2026-01-01")) end)))

abbrev pub pull : Json
pull = obj (
    field (codes "number") (int (pos 3)) (
      field (codes "body") (str (codes "no marker"))
        (field (codes "ref") (str (codes "item/7-x")) (field (codes "sha") (str sha) end))))

-- Any command that asks for one of these gets one line.
abbrev answer : List Text → Text
answer argv =
    if any (contains (codes "/comments")) argv
    then codes "claim"
    else if any (contains (codes "/pulls")) argv
    then codes "pull"
    else if any (contains (codes "/check-runs")) argv
    then codes "run"
    else if any (contains (codes "diff")) argv
    then codes "file"
    else if any (same (codes "main")) argv
    then older_sha
    else if any (contains (codes "rev-parse")) argv
    then sha
    else []

abbrev parse : Text → Option Json
parse s =
    if same s (codes "claim")
    then some claim
    else if same s (codes "pull")
    then some pull
    else if same s (codes "run")
    then some standing_run
    else none

abbrev pub now : Datetime
now = record { local = 1000 * minute; shift = day }

-- The claim as it is read.
abbrev pub winner : Claimant
winner = record {
  id = integer (pos 5);
  worker = some (codes "w");
  lease = record { minutes = pos 60; source = declared };
  expires_at = some (record { local = 1050 * minute; shift = day });
  age_seconds = pos 600;
}

abbrev pub rival : Claimant
rival = record winner { id = integer (pos 9) }

abbrev pub options : Options
options = record { repo = codes "o/r"; lease_minutes = pos 120; lease_from_cli = false; now = none }

abbrev pub args : Args
args = record {
  repo = codes "o/r";
  head_ref = codes "item/7-x";
  head_sha = sha;
  item_number = pos 7;
  lease_minutes = pos 120;
  lease_from_cli = false;
  now = none;
  expected_item = codes "o/r#7";
}

abbrev pub marker : Text
marker = codes "<!-- fsgg:pr-authorization v=1 item=o/r#7 gen=5 head=" ++ (sha ++ codes " -->")

abbrev pub host : Env
host = record {
  proc = λ w argv input. exited (pos 0) (answer argv) [];
  wall = λ w. now;
  loads = parse;
  fromisoformat = λ s. some (record { local = 990 * minute; zone = none });
  read_file = λ w path. contents [];
  is_file = λ w path. true;
  stdin = some marker;
  repr = λ v. [];
  gh_tries = 3;
}

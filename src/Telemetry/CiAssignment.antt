-- ===== src/Telemetry/CiAssignment.antt =====
-- fsgg_telemetry_defaults.py `assignment_payload`, and the file name that `create_assignment`
-- gives an assignment.
pub mod Create
pub mod SafeName
use fs_quint.Base.{
  ℕ, zero, suc, Bool, ◌||◌, ◌==◌, Option, none, some, List, [], ◌∷◌, ◌++◌, map, if◌then◌else◌,
}
use fs_quint.Base.Text.{Text, codes, member, is_letter, is_digit}
use fs_quint.Host.Value.{Json, str, obj, Fields, field, end}
use fs_quint.Usage.{Tried, configuration, done, threw, ◌>>=◌}
use fs_quint.Telemetry.Events.{opt}
use fs_quint.Telemetry.Identity.{validate_identity, validate_optional}

pub record Assigned : Type 0 where
  pub feature : Text
  pub item : Text
  pub attempt : Text
  pub parent_attempt : Option Text
  pub producer : Text

abbrev pub ci_schema : Text
ci_schema = codes "fsgg.telemetry.ci-assignment/1"

unfoldable pub assignment_payload : Text → Assigned → Tried Json
unfolding member validate_identity validate_optional opt
assignment_payload schema a =
    if member schema (codes "fsgg.telemetry.codex-assignment/1" ∷ ci_schema ∷ [])
    then (do
      feature ← validate_identity a.feature
      item ← validate_identity a.item
      attempt ← validate_identity a.attempt
      parent ← validate_optional a.parent_attempt
      producer ← validate_identity a.producer
      done (
          obj (
            field (codes "schema") (str schema) (
              field (codes "featureId") (str feature) (
                field (codes "itemId") (str item) (
                  field (codes "attemptId") (str attempt) (
                    field (codes "parentAttemptId") (opt parent)
                      (field (codes "producerStream") (str producer) end))))))))
    else threw configuration

-- `[A-Za-z0-9._-]`
unfoldable pub is_safe : ℕ → Bool
unfolding is_letter is_digit
is_safe c = is_letter c || is_digit c || c == b'.' || c == b'_' || c == b'-'

-- `re.sub(r"[^A-Za-z0-9._-]", "_", text)`
unfoldable pub replaced : Text → Text
unfolding is_safe
replaced = map (λ c. if is_safe c then c else b'_')

-- `text[:n]`
unfoldable pub shortened : ℕ → Text → Text
shortened zero s = []
shortened (suc n) [] = []
shortened (suc n) (c ∷ s) = c ∷ shortened n s

unfoldable pub safe_name : Assigned → Text
unfolding replaced shortened
safe_name a =
    shortened 180 (replaced (a.producer ++ (codes "-" ++ (a.item ++ (codes "-" ++ a.attempt)))))

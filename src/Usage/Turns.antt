-- ===== src/Usage/Turns.antt =====
-- `collect`: the turns of a child and their usage.
use fs_quint.Base.{
  ℕ, suc, Bool, true, false, not, ◌&&◌, Option, none, some, List, [], ◌∷◌, map, all, if◌then◌else◌,
}
use fs_quint.Base.Text.{Text, codes, member}
use fs_quint.Host.Value.{Json, str, arr, obj, Fields, get_or_null}
use fs_quint.Usage.{Counts, Tried, done, threw, ◌>>=◌, host_unavailable, crash}
use fs_quint.Usage.Server.{Codex}
use fs_quint.Usage.Child.{is_uuid}
use fs_quint.Usage.Rollout.{Observed, rollout_usage}
use fs_quint.Usage.Tally.{turn_usage, of_turn}

pub record TurnUsage : Type 0 where
  pub turn_id : Text
  pub turn_sequence : ℕ
  pub usage : Counts

pub record Native : Type 0 where
  pub thread_id : Json
  pub turns : List TurnUsage
  pub all_turn_ids : List Text
  pub complete : Bool
  pub model : Json
  pub effort : Json

-- The ids of turns: texts and dictionaries apart, then distinct UUIDs.
hashable : Json → Bool
hashable (arr vs) = false
hashable (obj fs) = false
hashable _ = true

uuids : List Json → Tried (List Text)
unfolding is_uuid
uuids [] = done []
uuids (str t ∷ vs) =
    let rest = uuids vs in
    if is_uuid t
    then elim rest [ done ts ↦ done (t ∷ ts) | threw e ↦ threw e ]
    else threw host_unavailable
uuids _ = threw host_unavailable

unfoldable pub distinct : List Text → Bool
unfolding member
distinct [] = true
distinct (t ∷ ts) = not (member t ts) && distinct ts

unfoldable pub turn_ids : List Fields → Tried (List Text)
unfolding hashable uuids distinct get_or_null
turn_ids turns =
    let ids = map (λ t. get_or_null (codes "id") t) turns in
    if all hashable ids
    then elim (uuids ids) [
      | threw e ↦ threw e
      | done ts ↦ if distinct ts then done ts else threw host_unavailable
    ]
    else threw crash

-- `status not in {...}`: a list or a dictionary cannot be looked up.
unfoldable pub has_ended : Json → Tried Bool
unfolding member hashable
has_ended (str s) = done (member s (map codes ("completed" ∷ "failed" ∷ "interrupted" ∷ [])))
has_ended v = if hashable v then done false else threw crash

-- A turn with its usage, where it has ended and its records agree.
unfoldable pub turn_of : ℕ → Text → Option Counts → List TurnUsage → List TurnUsage
turn_of n id none rest = rest
turn_of n id (some c) rest = record { turn_id = id; turn_sequence = n; usage = c } ∷ rest

unfoldable pub is_known : Option Counts → Bool
is_known none = false
is_known (some c) = true

-- The usage of a turn that has ended.
unfoldable pub usage_of : List Observed → Text → Bool → Option Counts
unfolding turn_usage of_turn
usage_of records id ended = if ended then turn_usage (of_turn id records) else none

-- The turns from a sequence number on, with their ids, and whether each one's usage is known.
unfoldable pub survey : List Observed → ℕ → List Fields → List Text → Tried (List TurnUsage × Bool)
unfolding has_ended usage_of turn_of is_known get_or_null
survey records n (t ∷ ts) (id ∷ ids) =
    let rest = survey records (suc n) ts ids in
    elim (has_ended (get_or_null (codes "status") t)) [
      | threw e ↦ threw e
      | done ended ↦ elim rest [
        | threw e ↦ threw e
        | done (found, complete) ↦ done (
          turn_of n id (usage_of records id ended) found,
          is_known (usage_of records id ended) && complete,
        )
      ]
    ]
survey records n _ _ = done ([], true)

unfoldable pub path_text : Codex → Json → Text
path_text codex (str t) = t
path_text codex v = codex.show v

unfoldable pub native_of : Fields → Json → List TurnUsage → List Text → Bool → Native
native_of thread id turns ids complete = record {
  thread_id = id;
  turns = turns;
  all_turn_ids = ids;
  complete = complete;
  model = get_or_null (codes "model") thread;
  effort = get_or_null (codes "reasoningEffort") thread;
}

-- What the rollout file gives on the turns of a thread.
unfoldable pub assembled : Codex → Fields → Json → List Fields → Tried Native
unfolding turn_ids rollout_usage path_text survey native_of get_or_null
assembled codex thread id turns = do
  ids ← turn_ids turns
  records ← rollout_usage codex id ids (path_text codex (get_or_null (codes "path") thread))
  (found, complete) ← survey records 1 turns ids
  done (native_of thread id found ids complete)

-- ===== src/Usage/Rollout.antt =====
-- `rollout_usage`: the usage records of a thread in its rollout file.
use fs_quint.Base.{
  ℕ, zero, suc, ◌*◌, Bool, true, false, not, ◌&&◌, ◌||◌, Option, none, some, List, [], ◌∷◌, ltb,
  leb, ◌==◌, length, if◌then◌else◌,
}
use fs_quint.Base.Text.{Text, codes, after, member, empty}
use fs_quint.Host.Value.{Json, str, arr, obj, Fields, get_or_null, is_text}
use fs_quint.Host.Value.Equality.{same_json}
use fs_quint.Usage.{Counts, counts, host_unavailable, crash, Tried, done, threw, ◌>>=◌}
use fs_quint.Usage.Server.{Codex, max_line}

pub record Observed : Type 0 where
  pub turn : Text
  pub response : Text
  pub usage : Counts
  pub turn_total : Counts

take : ℕ → Text → Text
take zero s = []
take (suc n) [] = []
take (suc n) (c ∷ s) = c ∷ take n s

-- `\s*` on bytes.
skip : Text → Text
skip [] = []
skip (c ∷ s) = let rest = skip s in if c == 32 || (leb 9 c && leb c 13) then rest else c ∷ s

behind : Text → Option Text → Option Text
unfolding after skip
behind literal none = none
behind literal (some s) = after literal (skip s)

present : Option Text → Bool
present none = false
present (some s) = true

-- `"type"\s*:\s*"token_usage_record"` at the front.
tagged : Text → Bool
unfolding after behind present
tagged s =
    present
      (behind (codes "\"token_usage_record\"") (behind (codes ":") (after (codes "\"type\"") s)))

search_tag : Text → Bool
unfolding tagged
search_tag [] = tagged []
search_tag (c ∷ s) = tagged (c ∷ s) || search_tag s

-- The lines that are decoded.
unfoldable pub is_record : Text → Bool
unfolding take search_tag
is_record l = not (ltb max_line (length l)) && search_tag (take 256 l)

-- The turn, where it is one of the known ones; a list or a dictionary cannot be in a set.
unfoldable pub known_turn : List Text → Json → Tried Text
unfolding member
known_turn ids (str t) = if member t ids then done t else threw host_unavailable
known_turn ids (arr vs) = threw crash
known_turn ids (obj fs) = threw crash
known_turn ids _ = threw host_unavailable

unfoldable pub response_id : Json → Tried Text
response_id (str t) = if empty t then threw host_unavailable else done t
response_id _ = threw host_unavailable

unfoldable pub read_payload : Json → List Text → Fields → Tried Observed
unfolding known_turn response_id counts get_or_null same_json
read_payload thread ids value =
    if same_json (get_or_null (codes "thread_id") value) thread
    then (do
      turn ← known_turn ids (get_or_null (codes "turn_id") value)
      response ← response_id (get_or_null (codes "response_id") value)
      usage ← counts (get_or_null (codes "usage") value)
      total ← counts (get_or_null (codes "turn_token_usage") value)
      done (record { turn = turn; response = response; usage = usage; turn_total = total }))
    else threw host_unavailable

unfoldable pub read_row : Json → List Text → Option Json → Tried Observed
unfolding read_payload is_text get_or_null
read_row thread ids none = threw host_unavailable
read_row thread ids (some (obj fs)) =
    if is_text (codes "token_usage_record") (get_or_null (codes "type") fs)
    then elim (get_or_null (codes "payload") fs) [
      | obj value ↦ read_payload thread ids value
      | _ ↦ threw host_unavailable
    ]
    else threw host_unavailable
read_row thread ids (some _) = threw crash

module _ (codex : Codex) (thread : Json) (ids : List Text) where
  unfoldable pub read_lines : List Text → Tried (List Observed)
  unfolding is_record read_row
  read_lines [] = done []
  read_lines (l ∷ ls) =
      let rest = read_lines ls in
      if is_record l
      then (do r ← read_row thread ids (codex.loads_bytes l); rs ← rest; done (r ∷ rs))
      else rest

  unfoldable pub rollout_usage : Text → Tried (List Observed)
  unfolding read_lines
  rollout_usage path =
      let file = codex.rollout path in
      if file.symlink || not file.regular || not file.inside || ltb (128 * 1024 * 1024) file.size
      then threw host_unavailable
      else read_lines file.lines

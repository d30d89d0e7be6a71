-- ===== src/Tests/Usages.antt =====
-- A native child with one completed turn.
use fs_quint.Usage.Rollout.{Observed}
use fs_quint.Usage.Tally.Finals.{finals, tally-finals}
use fs_quint.Usage.Tally.{tally}
use fs_quint.Base.{◌≡◌, refl, ℕ, pos, false, true, some, Option, List, [], ◌∷◌, if◌then◌else◌}
use fs_quint.Base.Text.{Text, codes, same}
use fs_quint.Host.Value.{Json, null, int, str, arr, obj, nil, cons, Fields, end, field}
use fs_quint.Usage.{Counts, done}
use fs_quint.Usage.Server.{Codex, Request, reads, line}
use fs_quint.Usage.Turns.{Native}
use fs_quint.Usage.Pages.{page}
use fs_quint.Usage.Pages.Bounds.{Brief, page-Brief}
use fs_quint.Usage.Collect.{collect}
use fs_quint.Usage.Consistent.{AllConsistent}
use fs_quint.Usage.Consistent.Collected.{collect-AllConsistent}

abbrev parent : Text
parent = codes "00000000-0000-0000-0000-000000000000"

abbrev child : Text
child = codes "11111111-1111-1111-1111-111111111111"

abbrev turn : Text
turn = codes "22222222-2222-2222-2222-222222222222"

abbrev answer : ℕ → Fields → Json
answer id result = obj (field (codes "id") (int (pos id)) (field (codes "result") (obj result) end))

abbrev listed : Fields → Fields
listed row = field (codes "data") (arr (cons (obj row) nil)) (field (codes "nextCursor") null end)

abbrev spawn : Fields
spawn =
    field (codes "parent_thread_id") (str parent)
      (field (codes "agent_path") (str (codes "a/n")) end)

abbrev thread : Fields
thread = field (codes "id") (str child) (
    field (codes "parentThreadId") (str parent) (
      field (codes "path") (str (codes "r")) (
        field (codes "source")
          (obj (field (codes "subAgent") (obj (field (codes "thread_spawn") (obj spawn) end)) end))
          end)))

abbrev usage : Json
usage = obj (
    field (codes "input_tokens") (int (pos 5)) (
      field (codes "cached_input_tokens") (int (pos 2)) (
        field (codes "output_tokens") (int (pos 3)) (
          field (codes "reasoning_output_tokens") (int (pos 1))
            (field (codes "total_tokens") (int (pos 8)) end)))))

abbrev payload : Fields
payload = field (codes "thread_id") (str child) (
    field (codes "turn_id") (str turn) (
      field (codes "response_id") (str (codes "r1"))
        (field (codes "usage") usage (field (codes "turn_token_usage") usage end))))

abbrev replies : Text → Option Json
replies t =
    if same t (codes "1")
    then some (answer 1 end)
    else if same t (codes "2")
    then some (answer 100 (listed (field (codes "id") (str child) end)))
    else if same t (codes "3")
    then some (answer 200 (field (codes "thread") (obj thread) end))
    else some (
        answer 300 (
          listed
            (field (codes "id") (str turn) (field (codes "status") (str (codes "completed")) end))))

abbrev line_at : List Request → Text
line_at (a ∷ []) = codes "1"
line_at (a ∷ b ∷ []) = codes "2"
line_at (a ∷ b ∷ c ∷ []) = codes "3"
line_at _ = codes "4"

abbrev codex : Codex
codex = record {
  starts = true;
  exchange = λ w. reads (line (line_at w) ∷ []);
  loads = replies;
  loads_bytes = λ t. some (
      obj (
        field (codes "type") (str (codes "token_usage_record"))
          (field (codes "payload") (obj payload) end)));
  rollout = λ t. record {
    symlink = false;
    regular = true;
    inside = true;
    size = 100;
    lines = codes "{\"type\": \"token_usage_record\"}" ∷ codes "{}" ∷ [];
  };
  show = λ v. [];
}

abbrev the_counts : Counts
the_counts = record { input = 5; cached = 2; output = 3; reasoning = 1; total = 8 }

abbrev native : Native
native = record {
  thread_id = str child;
  turns = record { turn_id = turn; turn_sequence = 1; usage = the_counts } ∷ [];
  all_turn_ids = turn ∷ [];
  complete = true;
  model = null;
  effort = null;
}

collected : (collect codex parent (codes "n") []).result ≡ done native
unfolding collect
collected = refl

collect-AllConsistent_example : AllConsistent native.turns
collect-AllConsistent_example = collect-AllConsistent codex parent (codes "n") [] native collected

page-Brief_example :
    Brief 10 []
      (page codex (codes "thread/turns/list") end 300 []).asked
      (page codex (codes "thread/turns/list") end 300 []).result
page-Brief_example = page-Brief codex (codes "thread/turns/list") end 300 []

-- The second record corrects the first.
abbrev records : List Observed
records =
    record { turn = turn; response = codes "r1"; usage = the_counts; turn_total = the_counts }
    ∷ record {
      turn = turn;
      response = codes "r1";
      usage = record { input = 6; cached = 2; output = 3; reasoning = 1; total = 9 };
      turn_total = the_counts;
    }
    ∷ []

tally-finals_example : tally records ≡ finals records
tally-finals_example = tally-finals records

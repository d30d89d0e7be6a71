-- ===== src/Usage/Child.antt =====
-- `collect`: which native child of a parent thread is meant.
use fs_quint.Base.{
  ℕ, zero, suc, ◌-◌, Bool, true, false, ◌&&◌, ◌||◌, Option, none, some, List, [], ◌∷◌, drop, all,
  leb, ◌==◌, length, if◌then◌else◌,
}
use fs_quint.Base.Text.{Text, codes, same, after, is_hex, is_letter, is_digit}
use fs_quint.Host.Value.{Json, str, obj, Fields, end, get, get_or_null, truthy, is_text}
use fs_quint.Usage.{Tried, done, threw, ◌>>=◌, host_unavailable, crash}

-- Hexadecimal digits of one number, then what follows.
hex_run : ℕ → Text → Option Text
unfolding is_hex
hex_run zero s = some s
hex_run (suc n) [] = none
hex_run (suc n) (c ∷ s) = let rest = hex_run n s in if is_hex c then rest else none

group : ℕ → Option Text → Option Text
unfolding hex_run after
group n none = none
group n (some s) = elim (after (codes "-") s) [ none ↦ none | some t ↦ hex_run n t ]

ends : Option Text → Bool
ends (some []) = true
ends _ = false

-- `UUID.fullmatch`
unfoldable pub is_uuid : Text → Bool
unfolding hex_run group ends
is_uuid s = ends (group 12 (group 4 (group 4 (group 4 (hex_run 8 s)))))

-- `[A-Za-z0-9_-]{1,128}`
unfoldable pub is_native_id : Text → Bool
unfolding is_letter is_digit
is_native_id s =
    leb 1 (length s)
    && leb (length s) 128
    && all (λ c. is_letter c || is_digit c || c == b'_' || c == b'-') s

unfoldable pub ends_with : Text → Text → Bool
unfolding same
ends_with s suffix =
    leb (length suffix) (length s) && same (drop (length s - length suffix) s) suffix

-- `value or {}`, on which `get` is called.
or_empty : Json → Tried Fields
unfolding truthy
or_empty v = if truthy v then elim v [ obj fs ↦ done fs | _ ↦ threw crash ] else done end

agent_path : Text → Json → Bool
unfolding ends_with
agent_path native (str path) = ends_with path (b'/' ∷ native)
agent_path native _ = false

-- The spawn of a thread names the parent and ends with the native id.
unfoldable pub is_match : Text → Text → Fields → Json → Bool
unfolding is_text agent_path get_or_null
is_match parent native thread (obj spawn) =
    is_text parent (get_or_null (codes "parentThreadId") thread)
    && is_text parent (get_or_null (codes "parent_thread_id") spawn)
    && agent_path native (get_or_null (codes "agent_path") spawn)
is_match parent native thread _ = false

-- What `thread/read` tells of a child: the thread, where it matches.
unfoldable pub judge_thread : Text → Text → Json → Tried (List Fields)
unfolding is_match or_empty get_or_null
judge_thread parent native (obj thread) = do
  source ← or_empty (get_or_null (codes "source") thread)
  agent ← or_empty (get_or_null (codes "subAgent") source)
  done (
      if is_match parent native thread (get_or_null (codes "thread_spawn") agent)
      then thread ∷ []
      else [])
judge_thread parent native _ = threw host_unavailable

-- `thread["id"]`
unfoldable pub thread_id : Fields → Tried Json
unfolding get
thread_id thread = elim (get (codes "id") thread) [ none ↦ threw crash | some v ↦ done v ]

-- ===== src/Usage/Collect.antt =====
-- `collect`: the one native child of a parent thread, its turns and their usage.
use fs_quint.Base.{false, ◌&&◌, List, [], ◌∷◌, ◌++◌, if◌then◌else◌}
use fs_quint.Base.Text.{Text, codes}
use fs_quint.Host.Value.{Json, bool, str, arr, nil, cons, Fields, end, field, get_or_null}
use fs_quint.Usage.{Tried, done, host_unavailable}
use fs_quint.Usage.Server.{Codex, Ask, pure, raise, lift, request, open_server, ◌>>=◌, ◌>>◌}
use fs_quint.Usage.Pages.{page}
use fs_quint.Usage.Child.{is_uuid, is_native_id, judge_thread, thread_id}
use fs_quint.Usage.Turns.{Native, native_of, assembled}

module _ (codex : Codex) (parent native : Text) where
  thread_params : Text → Fields
  thread_params id =
      field (codes "threadId") (str id) (field (codes "includeTurns") (bool false) end)

  read_thread : Text → Ask (List Fields)
  unfolding thread_params judge_thread request get_or_null
  read_thread id = do
    result ← request codex 200 (codes "thread/read") (thread_params id)
    lift (judge_thread parent native (get_or_null (codes "thread") result))

  -- A child without a UUID is passed over.
  match_child : Json → Ask (List Fields)
  unfolding is_uuid read_thread
  match_child (str id) = if is_uuid id then read_thread id else pure []
  match_child _ = pure []

  unfoldable pub matches : List Fields → Ask (List Fields)
  unfolding match_child get_or_null
  matches [] = pure []
  matches (child ∷ rest) = do
    here ← match_child (get_or_null (codes "id") child)
    there ← matches rest
    pure (here ++ there)

  unfoldable pub children_params : Fields
  children_params = field (codes "parentThreadId") (str parent) (
      field (codes "sourceKinds")
        (arr (cons (str (codes "subAgent")) (cons (str (codes "subAgentThreadSpawn")) nil))) end)

  unfoldable pub turns_params : Json → Fields
  turns_params id = field (codes "threadId") id (
      field (codes "sortDirection") (str (codes "asc"))
        (field (codes "itemsView") (str (codes "notLoaded")) end))

  -- What the rollout file and the listed turns give.
  unfoldable pub assemble : Fields → Json → List Fields → Tried Native
  unfolding assembled native_of
  assemble thread id [] = done (native_of thread id [] [] false)
  assemble thread id (t ∷ ts) = assembled codex thread id (t ∷ ts)

  unfoldable pub with_thread : Fields → Ask Native
  unfolding page turns_params assemble thread_id
  with_thread thread = do
    id ← lift (thread_id thread)
    turns ← page codex (codes "thread/turns/list") (turns_params id) 300
    lift (assemble thread id turns)

  unfoldable pub the_match : List Fields → Ask Native
  unfolding with_thread
  the_match (thread ∷ []) = with_thread thread
  the_match _ = raise host_unavailable

  unfoldable pub collect : Ask Native
  unfolding is_uuid is_native_id open_server page children_params matches the_match
  collect =
      if is_uuid parent && is_native_id native
      then (do
        open_server codex
        children ← page codex (codes "thread/list") children_params 100
        found ← matches children
        the_match found)
      else raise host_unavailable

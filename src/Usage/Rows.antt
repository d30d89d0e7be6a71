-- ===== src/Usage/Rows.antt =====
-- `page`: what it makes of one answer.
use fs_quint.Base.{
  ℕ, pos, Bool, false, ◌&&◌, not, Option, none, some, List, [], ◌∷◌, ◌++◌, ltb, length,
  if◌then◌else◌,
}
use fs_quint.Base.Text.{Text, codes, same, empty}
use fs_quint.Host.Value.{
  Json, null, str, int, arr, obj, Items, nil, cons, Fields, end, field, get_or_null,
}
use fs_quint.Usage.{host_unavailable, Tried, done, threw, ◌>>=◌}

-- The rows of a page, all of them dictionaries.
unfoldable pub row : Json → Tried Fields
row (obj fs) = done fs
row _ = threw host_unavailable

rows_in : Items → Tried (List Fields)
unfolding row
rows_in nil = done []
rows_in (cons v vs) = row v >>= λ r. rows_in vs >>= λ rs. done (r ∷ rs)

unfoldable pub rows_of : Json → Tried (List Fields)
unfolding rows_in
rows_of (arr vs) = rows_in vs
rows_of _ = threw host_unavailable

unfoldable pub cursor_json : Option Text → Json
cursor_json none = null
cursor_json (some c) = str c

-- `dict(params, cursor=cursor, limit=100)`, for parameters without these two keys.
unfoldable pub paged : Fields → Option Text → Fields
unfolding cursor_json
paged end cursor =
    field (codes "cursor") (cursor_json cursor) (field (codes "limit") (int (pos 100)) end)
paged (field k v fs) cursor = field k v (paged fs cursor)

is_cursor : Text → Option Text → Bool
unfolding same
is_cursor next none = false
is_cursor next (some c) = same next c

-- The cursor behind a page: there is none, or a new one.
unfoldable pub next_of : Option Text → Json → Tried (Option Text)
unfolding is_cursor
next_of cursor null = done none
next_of cursor (str next) =
    if not (empty next) && not (is_cursor next cursor)
    then done (some next)
    else threw host_unavailable
next_of cursor _ = threw host_unavailable

abbrev pub max_rows : ℕ
max_rows = 1000

unfoldable pub within_bound : List Fields → Tried (List Fields)
within_bound rows = if ltb max_rows (length rows) then threw host_unavailable else done rows

-- The rows so far with those of a page, and where to go on.
unfoldable pub read_page : Option Text → List Fields → Fields → Tried (List Fields × Option Text)
unfolding rows_of next_of get_or_null within_bound
read_page cursor rows result = do
  found ← rows_of (get_or_null (codes "data") result)
  total ← within_bound (rows ++ found)
  next ← next_of cursor (get_or_null (codes "nextCursor") result)
  done (total, next)

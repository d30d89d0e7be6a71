-- ===== src/Telemetry/Assignment.antt =====
-- roadmap-telemetry.py `authorized_original`: what it makes of the protected assignment.
use fs_quint.Base.{
  ℕ, suc, ◌+◌, pos, Bool, false, not, ◌&&◌, ◌||◌, ◌==◌, Option, none, some, List, [], ◌∷◌, ◌++◌,
  map, select, ltb, length, all, eqb_ℤ, if◌then◌else◌,
}
use fs_quint.Base.Text.{Text, codes, same, same_set, is_hex}
use fs_quint.Host.Value.{Json, str, arr, obj, Items, nil, cons, Fields, get_or_null, is_text, keys}
use fs_quint.Usage.{Tried, configuration, done, threw, ◌>>=◌}
use fs_quint.Host.{Proc, exited}
use fs_quint.Telemetry.Host.{Env}

-- The length of a text in UTF-8.
unfoldable pub utf8_length : Text → ℕ
utf8_length [] = 0
utf8_length (c ∷ s) =
    utf8_length s
    + (if ltb c 0x80 then 1 else if ltb c 0x800 then 2 else if ltb c 0x10000 then 3 else 4)

dictionary : Option Json → Tried Fields
dictionary (some (obj fs)) = done fs
dictionary _ = threw configuration

-- `[0-9a-f]{40}` in the object of the reference of the main branch.
revision_in : Fields → Tried Text
unfolding is_text get_or_null is_hex
revision_in commit =
    if is_text (codes "commit") (get_or_null (codes "type") commit)
    then elim (get_or_null (codes "sha") commit) [
      | str sha ↦ if length sha == 40 && all is_hex sha then done sha else threw configuration
      | _ ↦ threw configuration
    ]
    else threw configuration

unfoldable pub revision_of : Fields → Tried Text
unfolding is_text get_or_null revision_in
revision_of ref =
    if is_text (codes "refs/heads/main") (get_or_null (codes "ref") ref)
    then elim (get_or_null (codes "object") ref) [
      | obj commit ↦ revision_in commit
      | _ ↦ threw configuration
    ]
    else threw configuration

abbrev pub assignments_path : Text
assignments_path = codes "docs/coordination/telemetry-original-item-assignments.json"

-- An assignment: three texts and nothing else.
text_at : Text → Fields → Tried Text
unfolding get_or_null
text_at key fs = elim (get_or_null key fs) [ str t ↦ done t | _ ↦ threw configuration ]

pub record Assignment : Type 0 where
  pub feature : Text
  pub item : Text
  pub original : Text

assignment : Json → Tried Assignment
unfolding same_set keys text_at
assignment (obj fs) =
    if same_set (keys fs) (map codes ("featureId" ∷ "itemId" ∷ "originalItemId" ∷ []))
    then (do
      feature ← text_at (codes "featureId") fs
      item ← text_at (codes "itemId") fs
      original ← text_at (codes "originalItemId") fs
      done (record { feature = feature; item = item; original = original }))
    else threw configuration
assignment _ = threw configuration

assignments : Items → Tried (List Assignment)
unfolding assignment
assignments nil = done []
assignments (cons v vs) = do a ← assignment v; rest ← assignments vs; done (a ∷ rest)

item_count : Items → ℕ
item_count nil = 0
item_count (cons v vs) = suc (item_count vs)

-- The file as GitHub gives it: its bytes.
file_content : (Text → Option Text) → Fields → Tried Text
unfolding is_text get_or_null
file_content b64decode content =
    if is_text (codes "file") (get_or_null (codes "type") content)
      && is_text assignments_path (get_or_null (codes "path") content)
      && is_text (codes "base64") (get_or_null (codes "encoding") content)
    then elim (get_or_null (codes "content") content) [
      | str text ↦ elim (b64decode (select (λ c. not (c == 10)) text)) [
        | some raw ↦ if ltb 65536 (length raw) then threw configuration else done raw
        | none ↦ threw configuration
      ]
      | _ ↦ threw configuration
    ]
    else threw configuration

listed : Fields → Tried (List Assignment)
unfolding same_set keys is_text get_or_null item_count assignments
listed document =
    if same_set (keys document) (map codes ("schema" ∷ "assignments" ∷ []))
      && is_text (codes "fsgg.telemetry.original-item-assignments/1")
          (get_or_null (codes "schema") document)
    then elim (get_or_null (codes "assignments") document) [
      | arr vs ↦ if ltb 200 (item_count vs) then threw configuration else assignments vs
      | _ ↦ threw configuration
    ]
    else threw configuration

-- The one assignment of the item names the original.
unfoldable pub grants : Text → Text → Text → List Assignment → Bool
unfolding same
grants feature item original rows =
    elim (select (λ a. same a.feature feature && same a.item item) rows) [
      | a ∷ [] ↦ same a.original original
      | _ ↦ false
    ]

-- The digest of an assignment that grants the original at a revision.
unfoldable pub granted : Env → Text → Text → Text → Text → Fields → Tried Text
unfolding file_content dictionary listed grants
granted env feature item original revision content = do
  raw ← file_content env.b64decode content
  document ← dictionary (env.loads_bytes raw)
  rows ← listed document
  if grants feature item original rows
      then done (revision ++ (codes ":" ++ env.sha256_bytes raw))
      else threw configuration

-- The dictionary in an answer of `gh`.
unfoldable pub github_answer : Env → Proc → Tried Fields
unfolding utf8_length dictionary
github_answer env (exited status out err) =
    if not (eqb_ℤ status (pos 0)) || ltb 131072 (utf8_length out)
    then threw configuration
    else dictionary (env.loads out)
github_answer env _ = threw configuration

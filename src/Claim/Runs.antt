-- ===== src/Claim/Runs.antt =====
-- check-claim-generation.py `open_item_prs` and `standing_conclusion`: what the sweep reads.
pub mod Reading
use fs_quint.Base.{
  ℤ, pos, Bool, true, false, ◌&&◌, ◌||◌, Option, none, some, List, [], ◌∷◌, ◌++◌, ltb, ltb_ℤ, ◌==◌,
  if◌then◌else◌,
}
use fs_quint.Base.Text.{Text, codes, same}
use fs_quint.Base.Text.Decimal.{int_of, show_int}
use fs_quint.Host.{crash, Result, value, raised, Env, Exec, pure, lift, ◌>>=◌}
use fs_quint.Host.Value.{Json, null, bool, int, float, str, obj, get_or_null, truthy, as_text}
use fs_quint.Claim.Transport.{gh_api}
use fs_quint.Claim.Comments.{decoded}

abbrev pub check_run_name : Text
check_run_name = codes "claim-generation"

-- A check run's sort key: `str(r.get("started_at") or "")` and `int(r.get("id") or 0)`.
abbrev pub Key : Type 0
Key = Text × ℤ

before_text : Text → Text → Bool
before_text [] [] = false
before_text [] (d ∷ t) = true
before_text (c ∷ s) [] = false
before_text (c ∷ s) (d ∷ t) = ltb c d || (c == d && before_text s t)

before : Key → Key → Bool
unfolding before_text same
before (s, m) (t, n) = before_text s t || (same s t && ltb_ℤ m n)

text_of : Env → Json → Text
unfolding show_int
text_of env (str s) = s
text_of env (int n) = show_int n
text_of env (float t n exact) = t
text_of env (bool true) = codes "True"
text_of env (bool false) = codes "False"
text_of env null = codes "None"
text_of env v = env.repr v

integer_of : Json → Result ℤ
unfolding int_of
integer_of (int n) = value n
integer_of (bool true) = value (pos 1)
integer_of (bool false) = value (pos 0)
integer_of (float t n exact) = value n
integer_of (str s) = elim (int_of s) [ none ↦ raised crash | some n ↦ value n ]
integer_of _ = raised crash

run_key : Env → Json → Result (Key × Json)
unfolding text_of integer_of truthy get_or_null
run_key env (obj fs) =
    let started = get_or_null (codes "started_at") fs in
    let number = get_or_null (codes "id") fs in
    elim (if truthy number then integer_of number else value (pos 0)) [
      | raised e ↦ raised e
      | value n ↦ value (
        ((if truthy started then text_of env started else []), n),
        get_or_null (codes "conclusion") fs,
      )
    ]
run_key env _ = raised crash

pub run_keys : Env → List Json → Result (List (Key × Json))
unfolding run_key
run_keys env [] = value []
run_keys env (r ∷ rs) = elim (run_key env r) [
  | raised e ↦ raised e
  | value k ↦ elim (run_keys env rs) [ raised e ↦ raised e | value ks ↦ value (k ∷ ks) ]
]

newest : Key × Json → List (Key × Json) → Json
unfolding before
newest (k, v) [] = v
newest (k, v) ((j, w) ∷ rest) = newest (if before k j then (j, w) else (k, v)) rest

pub conclusion_of : List (Key × Json) → Option Text
unfolding newest as_text
conclusion_of [] = none
conclusion_of (r ∷ rs) = as_text (newest r rs)

module _ (env : Env) where
  unfoldable pub open_item_prs : Text → Exec (List Json)
  unfolding gh_api decoded
  open_item_prs repo = do
    raw ← gh_api env (
        codes "--paginate"
        ∷ codes "--jq"
        ∷ codes ".[] | {number, body, ref: .head.ref, sha: .head.sha}"
        ∷ (codes "repos/" ++ (repo ++ codes "/pulls?state=open&per_page=100"))
        ∷ [])
    pure (decoded env raw)

  unfoldable pub standing_conclusion : Text → Text → Exec (Option Text)
  unfolding gh_api decoded run_keys conclusion_of
  standing_conclusion repo sha = do
    raw ← gh_api env (
        codes "--jq"
        ∷ codes ".check_runs[] | {id, conclusion, started_at}"
        ∷ (codes "repos/"
            ++ (repo
                ++ (codes "/commits/"
                    ++ (sha
                        ++ (codes "/check-runs?check_name="
                            ++ (check_run_name ++ codes "&per_page=100"))))))
        ∷ [])
    keyed ← lift (run_keys env (decoded env raw))
    pure (conclusion_of keyed)

-- ===== src/Claim/Transport/Reading.antt =====
-- `gh_api` sends nothing to the commands that it runs.
use fs_quint.Base.{ℕ, zero, suc, ◌+◌, none, some, List, [], ◌∷◌}
use fs_quint.Base.Text.{Text, codes}
use fs_quint.Host.{Event, ran, slept, Env, Exec, execute, pause}
use fs_quint.Host.Logs.{Logs, Logs-pure, Logs-raise, Logs->>=, Logs-execute, Logs-pause}
use fs_quint.Claim.Transport.{Reply, answered, refused, again, reply, respond, gh_attempts, gh_api}

-- The commands that read: `gh api` with a filter and a path, which asks with GET, and three commands of
-- `git`.
pub data IsQuery : List Text → Type 0 where
  listed :
      (filter path : Text)
      → IsQuery (codes "gh" ∷ codes "api" ∷ codes "--paginate" ∷ codes "--jq" ∷ filter ∷ path ∷ [])
  fetched :
      (filter path : Text) → IsQuery (codes "gh" ∷ codes "api" ∷ codes "--jq" ∷ filter ∷ path ∷ [])
  shown : (object : Text) → IsQuery (codes "git" ∷ codes "show" ∷ object ∷ [])
  compared :
      (range : Text)
      → IsQuery (codes "git" ∷ codes "diff" ∷ codes "--name-only" ∷ range ∷ codes "--" ∷ [])
  related :
      (ancestor head : Text)
      → IsQuery (codes "git" ∷ codes "merge-base" ∷ codes "--is-ancestor" ∷ ancestor ∷ head ∷ [])

-- The events that read: one of these commands, without input, or a pause.
abbrev pub IsRead : Event → Type 0
IsRead (ran argv none) = IsQuery argv
IsRead (ran argv (some input)) = ⊥
IsRead (slept k) = Unit

module _ {P : Event → Type 0} (reads : (x : Event) → IsRead x → P x) (env : Env) where
  pub respond-Logs :
      (r : Reply) (left : ℕ) (retry : Exec Text) → Logs P retry → Logs P (respond r left retry)
  unfolding respond
  respond-Logs (answered out) left retry l = Logs-pure out
  respond-Logs (refused e) left retry l = Logs-raise Text e
  respond-Logs (again e) zero retry l = Logs-raise Text e
  respond-Logs (again e) (suc left) retry l = l

  gh_attempts-Logs :
      (argv : List Text) (left k : ℕ) → IsQuery argv → Logs P (gh_attempts env argv left k)
  unfolding gh_attempts
  gh_attempts-Logs argv zero k q = Logs-raise Text _
  gh_attempts-Logs argv (suc left) k q =
      Logs->>= (execute env argv none) _ (Logs-execute env argv none (reads _ q)) λ p.
        respond-Logs (reply p) left _ (
          Logs->>= (pause k) _ (Logs-pause k (reads _ tt))
            (λ _. gh_attempts-Logs argv left (k + 1) q))

  pub gh_api-Logs :
      (args : List Text) → IsQuery (codes "gh" ∷ codes "api" ∷ args) → Logs P (gh_api env args)
  unfolding gh_api
  gh_api-Logs args q = gh_attempts-Logs _ env.gh_tries 0 q

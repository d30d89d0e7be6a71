-- ===== src/Usage/Consistent/Collected.antt =====
-- The counters that `collect` gives are consistent: from the rollout file to the result.
use fs_quint.Base.{
  ◌≡◌, ap, subst, ℕ, suc, ◌*◌, ◌&&◌, not, ◌||◌, Bool, true, false, List, [], ◌∷◌, All, ltb,
  if◌then◌else◌,
}
use fs_quint.Base.Text.{Text, codes}
use fs_quint.Host.Value.{Json, Fields, get_or_null}
use fs_quint.Usage.{host_unavailable, Tried, done, threw}
use fs_quint.Usage.Server.{Codex, Request, open_server, lift, raise, ◌>>=◌}
use fs_quint.Usage.Inversion.{done-injective, threw-done, >>=-done, ask-done}
use fs_quint.Usage.Rollout.{Observed, read_lines, rollout_usage}
use fs_quint.Usage.Turns.{
  TurnUsage, Native, native_of, assembled, survey, turn_of, usage_of, is_known, has_ended, turn_ids,
  path_text,
}
use fs_quint.Usage.Child.{is_uuid, is_native_id, thread_id}
use fs_quint.Usage.Pages.{page}
use fs_quint.Usage.Collect.{
  collect, the_match, with_thread, assemble, matches, turns_params, children_params,
}
use fs_quint.Usage.Consistent.{
  Valid, Valid-lines, AllConsistent, turn_of-AllConsistent, usage_of-IsConsistent,
}

rollout_usage-Valid :
    (codex : Codex) (thread : Json) (ids : List Text) (path : Text) (os : List Observed)
    → rollout_usage codex thread ids path ≡ done os
    → All Valid os
unfolding rollout_usage
rollout_usage-Valid codex thread ids path os h =
    let f = codex.rollout path in
    checked (f.symlink || not f.regular || not f.inside || ltb (128 * 1024 * 1024) f.size) h
  where
    checked :
        (b : Bool)
        → (if b
            then threw host_unavailable
            else read_lines codex thread ids (codex.rollout path).lines)
          ≡ done os
        → All Valid os
    checked true k = absurd (threw-done host_unavailable os k)
    checked false k = Valid-lines codex thread ids (codex.rollout path).lines os k

-- A survey that ended, and its turns.
Surveyed : Tried (List TurnUsage × Bool) → Type 0
Surveyed (done p) = AllConsistent p.0
Surveyed (threw f) = Unit

survey-Surveyed :
    (os : List Observed) (n : ℕ) (ts : List Fields) (ids : List Text)
    → All Valid os
    → Surveyed (survey os n ts ids)
unfolding survey Surveyed AllConsistent
survey-Surveyed os n [] ids v = tt
survey-Surveyed os n (t ∷ ts) [] v = tt
survey-Surveyed os n (t ∷ ts) (id ∷ ids) v =
    ended (has_ended (get_or_null (codes "status") t)) (survey os (suc n) ts ids)
      (survey-Surveyed os (suc n) ts ids v)
  where
    rested :
        (b : Bool) (r : Tried (List TurnUsage × Bool))
        → Surveyed r
        → Surveyed (elim r [
          | threw e ↦ threw e
          | done (found, complete) ↦
              done (turn_of n id (usage_of os id b) found, is_known (usage_of os id b) && complete)
        ])
    rested b (threw e) s = tt
    rested b (done p) s =
        turn_of-AllConsistent n id (usage_of os id b) p.0
          (λ c e. usage_of-IsConsistent os id b c v e) s

    ended :
        (e : Tried Bool) (r : Tried (List TurnUsage × Bool))
        → Surveyed r
        → Surveyed (elim e [
          | threw f ↦ threw f
          | done b ↦ elim r [
            | threw f ↦ threw f
            | done (found, complete) ↦
                done
                  (turn_of n id (usage_of os id b) found, is_known (usage_of os id b) && complete)
          ]
        ])
    ended (threw f) r s = tt
    ended (done b) r s = rested b r s

surveyed :
    (os : List Observed) (n : ℕ) (ts : List Fields) (ids : List Text) (p : List TurnUsage × Bool)
    → All Valid os
    → survey os n ts ids ≡ done p
    → AllConsistent p.0
unfolding Surveyed
surveyed os n ts ids p v h = subst Surveyed h (survey-Surveyed os n ts ids v)

assembled-AllConsistent :
    (codex : Codex) (thread : Fields) (id : Json) (ts : List Fields) (n : Native)
    → assembled codex thread id ts ≡ done n
    → AllConsistent n.turns
unfolding assembled native_of
assembled-AllConsistent codex thread id ts n h =
    let (ids, e₁, h₁) = >>=-done (turn_ids ts) _ n h in
    let (os, e₂, h₂) =
      >>=-done (rollout_usage codex id ids (path_text codex (get_or_null (codes "path") thread))) _
        n h₁ in
    let (p, e₃, h₃) = >>=-done (survey os 1 ts ids) _ n h₂ in
    subst AllConsistent (ap (λ x. x.turns) (done-injective (native_of thread id p.0 ids p.1) n h₃))
      (surveyed os 1 ts ids p (rollout_usage-Valid codex id ids _ os e₂) e₃)

module _ (codex : Codex) (parent native : Text) where
  assemble-AllConsistent :
      (thread : Fields) (id : Json) (ts : List Fields) (n : Native)
      → assemble codex parent native thread id ts ≡ done n
      → AllConsistent n.turns
  unfolding assemble native_of AllConsistent
  assemble-AllConsistent thread id [] n h =
      subst AllConsistent (ap (λ x. x.turns) (done-injective (native_of thread id [] [] false) n h))
        tt
  assemble-AllConsistent thread id (t ∷ ts) n h =
      assembled-AllConsistent codex thread id (t ∷ ts) n h

  with_thread-AllConsistent :
      (thread : Fields) (w : List Request) (n : Native)
      → (with_thread codex parent native thread w).result ≡ done n
      → AllConsistent n.turns
  unfolding with_thread
  with_thread-AllConsistent thread w n h =
      let (id, e₁, h₁) = ask-done (lift (thread_id thread)) _ w n h in
      let (ts, e₂, h₂) =
        ask-done (page codex (codes "thread/turns/list") (turns_params codex parent native id) 300)
          _ w n h₁ in
      assemble-AllConsistent thread id ts n h₂

  the_match-AllConsistent :
      (threads : List Fields) (w : List Request) (n : Native)
      → (the_match codex parent native threads w).result ≡ done n
      → AllConsistent n.turns
  unfolding the_match
  the_match-AllConsistent [] w n h = absurd (threw-done host_unavailable n h)
  the_match-AllConsistent (t ∷ []) w n h = with_thread-AllConsistent t w n h
  the_match-AllConsistent (t ∷ u ∷ ts) w n h = absurd (threw-done host_unavailable n h)

-- In the usage that `collect` gives, the cached tokens of every turn are among its input, the
-- reasoning tokens among its output, and the total is input plus output.
pub collect-AllConsistent :
    (codex : Codex) (parent native : Text) (w : List Request) (n : Native)
    → (collect codex parent native w).result ≡ done n
    → AllConsistent n.turns
unfolding collect
collect-AllConsistent codex parent native w n h = asked (is_uuid parent && is_native_id native) h
  where
    asked :
        (b : Bool)
        → ((if b
              then (open_server codex >>= λ ok.
                  page codex (codes "thread/list") (children_params codex parent native) 100
                  >>= λ children.
                      matches codex parent native children >>= the_match codex parent native)
              else raise host_unavailable)
            w).result
          ≡ done n
        → AllConsistent n.turns
    asked false k = absurd (threw-done host_unavailable n k)
    asked true k =
        let (ok, e₁, h₁) = ask-done (open_server codex) _ w n k in
        let (cs, e₂, h₂) =
          ask-done (page codex (codes "thread/list") (children_params codex parent native) 100) _ _
            n h₁ in
        let (ms, e₃, h₃) = ask-done (matches codex parent native cs) _ _ n h₂ in
        the_match-AllConsistent codex parent native ms _ n h₃

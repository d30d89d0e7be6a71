-- ===== src/Telemetry/Matching.antt =====
-- roadmap-telemetry.py `matching_dispatch`: the dispatch of an attempt among the state files.
use fs_quint.Base.{
  ℕ, Bool, true, false, ◌&&◌, ◌==◌, Option, none, some, List, [], ◌∷◌, select, ltb, length,
  if◌then◌else◌,
}
use fs_quint.Base.Text.{Text, same, member}
use fs_quint.Usage.{Tried, configuration, done, threw}
use fs_quint.Telemetry.Machine.{
  Relation, root, child, follow_up, State, saved, Log, Act, pure, raise, lift, observe, ◌>>=◌,
}
use fs_quint.Telemetry.Host.{Env, HostConfig}
use fs_quint.Telemetry.Files.{read_state, same_option, is_token}

-- The keys that a retry has to repeat.
pub record Expected : Type 0 where
  pub feature : Text
  pub item : Text
  pub original_item : Text
  pub original_assignment_digest : Option Text
  pub attempt : Text
  pub parent_attempt : Option Text
  pub producer_stream : Text
  pub model : Text
  pub effort : Text
  pub relation : Relation
  pub parent_dispatch : Option Text
  pub parent_invocation : Option Text
  pub late_after_seconds : ℕ

unfoldable pub same_relation : Relation → Relation → Bool
same_relation root root = true
same_relation child child = true
same_relation follow_up follow_up = true
same_relation _ _ = false

-- `state.get("originalItemId", default)`
unfoldable pub original_or : Option Text → Text → Text
original_or none default = default
original_or (some t) default = t

unfoldable pub is_attempt : Expected → State → Bool
unfolding same
is_attempt e d =
    same d.identity.feature e.feature
    && same d.identity.item e.item
    && same d.identity.attempt e.attempt

unfoldable pub is_expected : Expected → State → Bool
unfolding same same_option original_or same_relation
is_expected e d =
    let i = d.identity in
    same i.feature e.feature
    && same i.item e.item
    && same (original_or i.original_item i.item) e.original_item
    && same_option i.original_assignment_digest e.original_assignment_digest
    && same i.attempt e.attempt
    && same_option i.parent_attempt e.parent_attempt
    && same i.producer_stream e.producer_stream
    && same i.model e.model
    && same i.effort e.effort
    && same_relation i.relation e.relation
    && same_option i.parent_dispatch e.parent_dispatch
    && same_option i.parent_invocation e.parent_invocation
    && i.late_after_seconds == e.late_after_seconds

-- The tokens that have a state file.
unfoldable pub tokens : Log → List Text
unfolding member
tokens [] = []
tokens (saved d ∷ w) = let rest = tokens w in if member d.token rest then rest else d.token ∷ rest
tokens (e ∷ w) = tokens w

abbrev max_states : ℕ
max_states = 4096

-- One match at most, and it repeats what is expected.
unfoldable pub the_dispatch : Expected → List State → Tried (Option State)
unfolding is_expected
the_dispatch e [] = done none
the_dispatch e (d ∷ []) = if is_expected e d then done (some d) else threw configuration
the_dispatch e _ = threw configuration

module _ (env : Env) (config : HostConfig) where
  -- Every state file is read, whether it matches or not.
  unfoldable pub matching : Expected → List Text → Act Unit (List State)
  unfolding read_state is_attempt
  matching e [] = pure []
  matching e (t ∷ ts) = do
    d ← read_state env config t
    rest ← matching e ts
    pure (if is_attempt e d then d ∷ rest else rest)

  unfoldable pub bounded : Expected → List Text → Act Unit (Option State)
  unfolding matching the_dispatch is_token
  bounded e ts =
      if ltb max_states (length ts)
      then raise configuration
      else (do found ← matching e (select is_token ts); lift (the_dispatch e found))

  unfoldable pub matching_dispatch : Expected → Act Unit (Option State)
  unfolding bounded tokens
  matching_dispatch e = observe tokens >>= bounded e

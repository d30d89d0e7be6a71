-- ===== src/Telemetry/Repository.antt =====
-- fsgg_telemetry_defaults.py `canonical_github_repository`, `discover_checkout_repository` and
-- `workspace_repository`. `urlsplit`, whose ports may be refused, is a parameter.
pub mod Canonical
use fs_quint.Base.{
  ℕ, pos, eqb_ℤ, Bool, true, false, not, ◌&&◌, ◌||◌, ◌==◌, Option, none, some, List, [], ◌∷◌, ◌++◌,
  ltb, leb, length, all, map, if◌then◌else◌, ◌+◌,
}
use fs_quint.Base.Text.{
  Text, codes, same, span, empty, is_letter, is_digit, is_space, is_upper, lower, splitlines,
}
use fs_quint.Usage.{Tried, configuration, done, threw}
use fs_quint.Telemetry.Machine.{Act, pure, raise, lift, completed, Completed, ◌>>=◌}
use fs_quint.Telemetry.Host.{Env}
use fs_quint.Telemetry.Command.{run}
use fs_quint.Telemetry.Assignment.{utf8_length}

pub record Url : Type 0 where
  pub scheme : Text
  pub username : Option Text
  pub password : Option Text
  pub hostname : Option Text
  pub port : Option ℕ
  pub path : Text
  pub query : Text
  pub fragment : Text

unfoldable pub is_alnum : ℕ → Bool
unfolding is_letter is_digit
is_alnum c = is_letter c || is_digit c

unfoldable pub owner_char : ℕ → Bool
unfolding is_alnum
owner_char c = is_alnum c || c == b'-'

unfoldable pub name_char : ℕ → Bool
unfolding is_alnum
name_char c = is_alnum c || c == b'_' || c == b'.' || c == b'-'

unfoldable pub begins : Text → Bool
unfolding is_alnum
begins [] = false
begins (c ∷ s) = is_alnum c

unfoldable pub ends : Text → Bool
unfolding is_alnum
ends [] = false
ends (c ∷ []) = is_alnum c
ends (c ∷ d ∷ s) = ends (d ∷ s)

-- `[A-Za-z0-9](?:[A-Za-z0-9-]{0,38}[A-Za-z0-9])?`
unfoldable pub is_owner : Text → Bool
unfolding owner_char begins ends
is_owner s = all owner_char s && begins s && ends s && leb (length s) 40

-- `(?!\.{1,2}$)[A-Za-z0-9_.-]{1,100}`
unfoldable pub is_name : Text → Bool
unfolding name_char same
is_name s =
    all name_char s
    && not (empty s)
    && leb (length s) 100
    && not (same s (codes "."))
    && not (same s (codes ".."))

unfoldable pub is_part : ℕ → Bool
is_part c = not (c == b'/')

-- The two parts of `split("/")`, if there are two.
unfoldable pub cut : Text × Text → Option (Text × Text)
unfolding is_part
cut (a, []) = none
cut (a, c ∷ b) = if all is_part b then some (a, b) else none

unfoldable pub parts : Text → Option (Text × Text)
unfolding span cut is_part
parts s = cut (span is_part s)

-- The two halves of the pattern that `workspace_repository` has, which is one of its own:
-- `[A-Za-z0-9](?:[A-Za-z0-9-]{0,38}[A-Za-z0-9])?` in front of the slash, and
-- `(?!\.{1,2}$)[A-Za-z0-9_.-]{1,100}` behind it.
unfoldable pub variable_owner : Text → Bool
unfolding is_letter is_digit begins ends
variable_owner s =
    all (λ c. is_letter c || is_digit c || c == b'-') s && begins s && ends s && leb (length s) 40

unfoldable pub variable_name : Text → Bool
unfolding is_letter is_digit same
variable_name s =
    all (λ c. is_letter c || is_digit c || c == b'_' || c == b'.' || c == b'-') s
    && not (empty s)
    && leb (length s) 100
    && not (same s (codes "."))
    && not (same s (codes ".."))

unfoldable pub paired : Option (Text × Text) → Bool
unfolding variable_owner variable_name
paired none = false
paired (some (a, b)) = variable_owner a && variable_name b

unfoldable pub is_repository : Text → Bool
unfolding paired parts
is_repository s = paired (parts s)

-- A character without its case, as `re.IGNORECASE` has it for the letters of `GITHUB_SCP_RE`: the
-- letter i has two more forms.
unfoldable pub folded : ℕ → ℕ
unfolding is_upper
folded c = if is_upper c then c + 32 else if c == 304 || c == 305 then b'i' else c

-- What follows a prefix, up to case.
unfoldable pub behind : Text → Text → Option Text
unfolding folded
behind [] s = some s
behind (p ∷ ps) [] = none
behind (p ∷ ps) (c ∷ s) = let rest = behind ps s in if p == folded c then rest else none

unfoldable pub both : Option (Text × Text) → Option (Text × Text)
both none = none
both (some (a, b)) = if empty a || empty b then none else some (a, b)

-- `GITHUB_SCP_RE`
unfoldable pub scp : Text → Option (Text × Text)
unfolding behind both parts
scp s = elim (behind (codes "git@github.com:") s) [ none ↦ none | some t ↦ both (parts t) ]

unfoldable pub without_git : Text → Text
unfolding same
without_git [] = []
without_git (c ∷ s) =
    let rest = c ∷ without_git s in if same (c ∷ s) (codes ".git") then [] else rest

unfoldable pub accepted : Text → Text → Tried Text
unfolding is_owner is_name
accepted owner repository =
    if is_owner owner && is_name repository
    then done (owner ++ (b'/' ∷ repository))
    else threw configuration

unfoldable pub without_slash : Text → Text
without_slash [] = []
without_slash (c ∷ s) = if c == b'/' then s else c ∷ s

unfoldable pub is_named : Option Text → Text → Bool
unfolding same
is_named none s = false
is_named (some t) s = same t s

unfoldable pub is_set {ℓ} : {A : Type ℓ} → Option A → Bool
is_set none = false
is_set (some a) = true

unfoldable pub is_host : Option Text → Bool
unfolding same lower
is_host none = false
is_host (some t) = same (lower t) (codes "github.com")

-- The user and the scheme that a URL may have.
unfoldable pub is_plain : Url → Bool
unfolding same is_set is_named
is_plain u =
    if same u.scheme (codes "https")
    then not (is_set u.username) && not (is_set u.password)
    else same u.scheme (codes "ssh") && is_named u.username (codes "git") && not (is_set u.password)

unfoldable pub from_parts : Option (Text × Text) → Tried Text
unfolding accepted without_git
from_parts none = threw configuration
from_parts (some (a, b)) = accepted a (without_git b)

unfoldable pub from_url : Option Url → Tried Text
unfolding is_set is_host is_plain from_parts parts without_slash
from_url none = threw configuration
from_url (some u) =
    if not (empty u.query)
      || not (empty u.fragment)
      || is_set u.port
      || not (is_host u.hostname)
      || not (is_plain u)
    then threw configuration
    else from_parts (parts (without_slash u.path))

abbrev pub git_config : List Text
git_config = map codes ("git" ∷ "config" ∷ "--local" ∷ "--get-all" ∷ "remote.origin.url" ∷ [])

module _ (urlsplit : Text → Option Url) where
  unfoldable pub canonical_github_repository : Text → Tried Text
  unfolding scp from_url from_parts is_space
  canonical_github_repository value =
      if empty value || not (all (λ c. not (is_space c)) value)
      then threw configuration
      else elim (scp value) [ none ↦ from_url (urlsplit value) | some p ↦ from_parts (some p) ]

  unfoldable pub only_origin : List Text → Tried Text
  unfolding canonical_github_repository
  only_origin (origin ∷ []) = canonical_github_repository origin
  only_origin _ = threw configuration

  unfoldable pub origin_of : Tried Completed → Tried Text
  unfolding only_origin splitlines utf8_length
  origin_of (threw f) = threw configuration
  origin_of (done c) =
      if not (eqb_ℤ c.status (pos 0)) || ltb 4096 (utf8_length c.stdout)
      then threw configuration
      else only_origin (splitlines c.stdout)

  module _ (env : Env) where
    unfoldable pub discover_checkout_repository : Act Unit Text
    unfolding run origin_of completed
    discover_checkout_repository = run env git_config >>= λ p. lift (origin_of (completed p))

    -- The value of a variable, or else what follows.
    unfoldable pub bounded : Option Text → Act Unit Text → Act Unit Text
    unfolding is_repository
    bounded none rest = rest
    bounded (some value) rest = if is_repository value then pure value else raise configuration

    unfoldable pub workspace_repository : Act Unit Text
    unfolding bounded discover_checkout_repository
    workspace_repository =
        bounded (env.environ (codes "FSGG_TELEMETRY_REPOSITORY"))
          (bounded (env.environ (codes "GITHUB_REPOSITORY")) discover_checkout_repository)

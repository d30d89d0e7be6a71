-- ===== src/Telemetry/Repository/Canonical.antt =====
-- What is taken for the repository of a workspace.
use fs_quint.Base.{All, length, leb, leb→le, not, ◌||◌, ◌≤◌, ◌≢◌, ◌⊎◌, ap, sym, ◌∙◌}
use fs_quint.Base.{
  &&-left, &&-right, subst, ◌≡◌, refl, arith, ℕ, ◌==◌, Bool, Bool-cases, true, false, ◌&&◌, inl,
  inr, Option, none, some, List, [], ◌∷◌, ◌++◌, all, if◌then◌else◌,
}
use fs_quint.Base.Text.{Text, codes, span, splitlines, is_letter, is_digit, is_lower, is_upper}
use fs_quint.Usage.{Tried, configuration, done, threw}
use fs_quint.Telemetry.Machine.{Log, Act, called, Completed, completed}
use fs_quint.Telemetry.Host.{Env}
use fs_quint.Telemetry.Repository.{
  Url, paired, begins, ends, variable_owner, variable_name, git_config, is_alnum, owner_char,
  name_char, is_owner, is_name, is_part, cut, parts, is_repository, accepted, from_parts, from_url,
  canonical_github_repository, only_origin, origin_of, bounded, discover_checkout_repository,
  workspace_repository, scp, without_slash, without_git,
}
use fs_quint.Telemetry.Runs.{After, Runs, Runs-pure, Runs-raise, Runs-if, Runs-lift}
use fs_quint.Base.Text.{same, same_iff, empty}
use mathlib.Core.List.{cons≢nil, head-eq_of_cons-eq}
use fs_quint.Base.{four, five}
use fs_quint.Usage.Inversion.{done-injective, threw-done, if-done}
use fs_quint.Telemetry.Command.{run}

-- A letter of ASCII, or a digit.
abbrev pub IsLetterOrDigit : ℕ → Type 0
IsLetterOrDigit c = ((48 ≤ c) × (c ≤ 57)) ⊎ ((65 ≤ c) × (c ≤ 90)) ⊎ ((97 ≤ c) × (c ≤ 122))

abbrev pub Starts : Text → Type 0
Starts [] = ⊥
Starts (c ∷ s) = IsLetterOrDigit c

abbrev pub Stops : Text → Type 0
Stops [] = ⊥
Stops (c ∷ []) = IsLetterOrDigit c
Stops (c ∷ d ∷ s) = Stops (d ∷ s)

-- At most 40 letters, digits and dashes, the first and the last no dash.
pub record IsOwner (s : Text) : Type 0 where
  pub characters : All (λ c. IsLetterOrDigit c ⊎ (c ≡ b'-')) s
  pub starts : Starts s
  pub stops : Stops s
  pub bounded : length s ≤ 40

-- From 1 to 100 letters, digits, underscores, dots and dashes, but not one or two dots alone.
pub record IsName (s : Text) : Type 0 where
  pub characters : All (λ c. IsLetterOrDigit c ⊎ (c ≡ b'_') ⊎ (c ≡ b'.') ⊎ (c ≡ b'-')) s
  pub given : 1 ≤ length s
  pub bounded : length s ≤ 100
  pub no_dot : s ≢ codes "."
  pub no_dots : s ≢ codes ".."

pub record IsRepository (r : Text) : Type 0 where
  pub owner : Text
  pub name : Text
  pub joined : r ≡ owner ++ (b'/' ∷ name)
  pub is_owner : IsOwner owner
  pub is_name : IsName name

is_alnum-IsLetterOrDigit : (c : ℕ) → (is_letter c || is_digit c) ≡ true → IsLetterOrDigit c
unfolding is_letter is_digit is_lower is_upper
is_alnum-IsLetterOrDigit c h = ground arith

begins-Starts : (s : Text) → begins s ≡ true → Starts s
unfolding begins is_alnum
begins-Starts [] h = absurd (ground (arith, h))
begins-Starts (c ∷ s) h = is_alnum-IsLetterOrDigit c h

ends-Stops : (s : Text) → ends s ≡ true → Stops s
unfolding ends is_alnum
ends-Stops [] h = absurd (ground (arith, h))
ends-Stops (c ∷ []) h = is_alnum-IsLetterOrDigit c h
ends-Stops (c ∷ d ∷ s) h = ends-Stops (d ∷ s) h

every :
    (p : ℕ → Bool) (Q : ℕ → Type 0) (s : Text)
    → ((c : ℕ) → p c ≡ true → Q c)
    → all p s ≡ true
    → All Q s
every p Q [] f h = tt
every p Q (c ∷ s) f h = (f c (&&-left _ _ h), every p Q s f (&&-right (p c) _ h))

owner_letter :
    (c : ℕ) → (is_letter c || is_digit c || c == b'-') ≡ true → IsLetterOrDigit c ⊎ (c ≡ b'-')
unfolding is_letter is_digit is_lower is_upper
owner_letter c h = ground arith

name_letter :
    (c : ℕ)
    → (is_letter c || is_digit c || c == b'_' || c == b'.' || c == b'-') ≡ true
    → IsLetterOrDigit c ⊎ (c ≡ b'_') ⊎ (c ≡ b'.') ⊎ (c ≡ b'-')
unfolding is_letter is_digit is_lower is_upper
name_letter c h = ground arith

-- Both patterns say the same of an owner, and of a name.
owner-IsOwner :
    (p : ℕ → Bool) (s : Text)
    → ((c : ℕ) → p c ≡ true → IsLetterOrDigit c ⊎ (c ≡ b'-'))
    → (all p s && begins s && ends s && leb (length s) 40) ≡ true
    → IsOwner s
owner-IsOwner p s f h =
    let (a, b, c, d) = four (all p s) (begins s) (ends s) (leb (length s) 40) h in
    record {
      characters = every p _ s f a;
      starts = begins-Starts s b;
      stops = ends-Stops s c;
      bounded = leb→le (length s) 40 d;
    }

differs : (s t : Text) → not (same s t) ≡ true → s ≢ t
differs s t h e = ground (arith, h, (same_iff s t).1 e)

filled : (s : Text) → not (empty s) ≡ true → 1 ≤ length s
filled [] h = absurd (ground (arith, h))
filled (c ∷ s) h = omega arith

name-IsName :
    (p : ℕ → Bool) (s : Text)
    → ((c : ℕ) → p c ≡ true → IsLetterOrDigit c ⊎ (c ≡ b'_') ⊎ (c ≡ b'.') ⊎ (c ≡ b'-'))
    → (all p s
        && not (empty s)
        && leb (length s) 100
        && not (same s (codes "."))
        && not (same s (codes "..")))
      ≡ true
    → IsName s
name-IsName p s f h =
    let (a, b, c, d, e) =
      five (all p s) (not (empty s)) (leb (length s) 100) (not (same s (codes ".")))
        (not (same s (codes ".."))) h in
    record {
      characters = every p _ s f a;
      given = filled s b;
      bounded = leb→le (length s) 100 c;
      no_dot = differs s (codes ".") d;
      no_dots = differs s (codes "..") e;
    }

accepted-IsRepository : (a b r : Text) → accepted a b ≡ done r → IsRepository r
unfolding accepted is_owner is_name owner_char name_char is_alnum
accepted-IsRepository a b r h =
    let (y, e) = if-done (is_owner a && is_name b) (done (a ++ (b'/' ∷ b))) configuration r h in
    record {
      owner = a;
      name = b;
      joined = sym (done-injective (a ++ (b'/' ∷ b)) r e);
      is_owner = owner-IsOwner owner_char a owner_letter (&&-left (is_owner a) _ y);
      is_name = name-IsName name_char b name_letter (&&-right (is_owner a) (is_name b) y);
    }

-- A text is the two parts of its span.
span-joined : (p : ℕ → Bool) (s : Text) → s ≡ (span p s).0 ++ (span p s).1
unfolding span
span-joined p [] = refl
span-joined p (c ∷ s) = elim (Bool-cases (p c)) [
  | inl y ↦ rw (y, span) (ap (λ t. c ∷ t) (span-joined p s))
  | inr n ↦ rw (n, span) refl
]

span-stops : (p : ℕ → Bool) (s a b : Text) (c : ℕ) → span p s ≡ (a, c ∷ b) → p c ≡ false
unfolding span
span-stops p [] a b c h = absurd (cons≢nil (sym (ap (λ x. x.1) h)))
span-stops p (d ∷ s) a b c h = elim (Bool-cases (p d)) [
  | inl y ↦
      span-stops p s (span p s).0 b c
        (ap (λ t. ((span p s).0, t)) (ap (λ x. x.1) (rw (y, span) at h)))
  | inr n ↦ ap p (head-eq_of_cons-eq (sym (ap (λ x. x.1) (rw (n, span) at h)))) ∙ n
]

part-slash : (c : ℕ) → is_part c ≡ false → c ≡ b'/'
unfolding is_part
part-slash c h = ground arith

cut-joined :
    (x : Text × Text)
    → paired (cut x) ≡ true
    → ((b : Text) (c : ℕ) → x.1 ≡ c ∷ b → is_part c ≡ false)
    → IsRepository (x.0 ++ x.1)
unfolding cut paired variable_owner variable_name
cut-joined (a, []) h k = absurd (ground (arith, h))
cut-joined (a, c ∷ b) h k = elim (Bool-cases (all is_part b)) [
  | inr n ↦ absurd (ground (arith, rw (n, cut, paired) at h))
  | inl y ↦
      let z = rw (y, cut, paired) at h in
      record {
        owner = a;
        name = b;
        joined = ap (λ d. a ++ (d ∷ b)) (part-slash c (k b c refl));
        is_owner = owner-IsOwner _ a owner_letter (&&-left (variable_owner a) _ z);
        is_name = name-IsName _ b name_letter (&&-right (variable_owner a) (variable_name b) z);
      }
]

variable-IsRepository : (r : Text) → is_repository r ≡ true → IsRepository r
unfolding is_repository parts
variable-IsRepository r h = subst IsRepository (sym (span-joined is_part r)) (
    cut-joined (span is_part r) h
      (λ b c e. span-stops is_part r (span is_part r).0 b c (ap (λ t. ((span is_part r).0, t)) e)))

else-done :
    (b : Bool) (x : Tried Text) (r : Text)
    → (if b then threw configuration else x) ≡ done r
    → x ≡ done r
else-done true x r h = absurd (threw-done configuration r h)
else-done false x r h = h

from_parts-IsRepository :
    (o : Option (Text × Text)) (r : Text) → from_parts o ≡ done r → IsRepository r
unfolding from_parts
from_parts-IsRepository none r h = absurd (threw-done configuration r h)
from_parts-IsRepository (some (a, b)) r h = accepted-IsRepository a (without_git b) r h

from_url-IsRepository : (o : Option Url) (r : Text) → from_url o ≡ done r → IsRepository r
unfolding from_url
from_url-IsRepository none r h = absurd (threw-done configuration r h)
from_url-IsRepository (some u) r h =
    from_parts-IsRepository (parts (without_slash u.path)) r (else-done _ _ r h)

module _ (urlsplit : Text → Option Url) where
  by_form :
      (o : Option (Text × Text)) (u : Option Url) (r : Text)
      → elim o [ none ↦ from_url u | some p ↦ from_parts (some p) ] ≡ done r
      → IsRepository r
  by_form none u r h = from_url-IsRepository u r h
  by_form (some p) u r h = from_parts-IsRepository (some p) r h

  canonical-IsRepository :
      (value r : Text) → canonical_github_repository urlsplit value ≡ done r → IsRepository r
  unfolding canonical_github_repository
  canonical-IsRepository value r h = by_form (scp value) (urlsplit value) r (else-done _ _ r h)

  only_origin-IsRepository :
      (origins : List Text) (r : Text) → only_origin urlsplit origins ≡ done r → IsRepository r
  unfolding only_origin
  only_origin-IsRepository [] r h = absurd (threw-done configuration r h)
  only_origin-IsRepository (o ∷ []) r h = canonical-IsRepository o r h
  only_origin-IsRepository (o ∷ p ∷ os) r h = absurd (threw-done configuration r h)

  origin_of-IsRepository :
      (c : Tried Completed) (r : Text) → origin_of urlsplit c ≡ done r → IsRepository r
  unfolding origin_of
  origin_of-IsRepository (threw f) r h = absurd (threw-done configuration r h)
  origin_of-IsRepository (done c) r h =
      only_origin-IsRepository (splitlines c.stdout) r (else-done _ _ r h)

  module _ (env : Env) where
    -- A repository, if there is a result.
    Canonical : Act Unit Text → Log → Type 0
    Canonical m w = Runs (λ r s v. IsRepository r) (λ f s v. Unit {0}) m tt w

    discover-Canonical : (w : Log) → Canonical (discover_checkout_repository urlsplit env) w
    unfolding discover_checkout_repository Canonical run
    discover-Canonical w = record {
      after =
          (Runs-lift {S = Unit {0}} (origin_of urlsplit (completed (env.proc w _))) tt
            (called _ ∷ w) (λ r h. origin_of-IsRepository (completed (env.proc w git_config)) r h)
            (λ f. tt)).after;
    }

    bounded-Canonical :
        (o : Option Text) (rest : Act Unit Text) (w : Log)
        → Canonical rest w
        → Canonical (bounded urlsplit env o rest) w
    unfolding bounded Canonical
    bounded-Canonical none rest w k = k
    bounded-Canonical (some v) rest w k =
        Runs-if (is_repository v) _ _ tt w (λ h. Runs-pure v tt w (variable-IsRepository v h))
          (λ h. Runs-raise configuration tt w tt)

  when_done :
      (x : Tried Text) (r : Text) (w : Log)
      → After {S = Unit {0}} (λ r s v. IsRepository r) (λ f s v. Unit {0}) x tt w
      → x ≡ done r
      → IsRepository r
  when_done (done y) r w h e = subst IsRepository (done-injective y r e) h
  when_done (threw f) r w h e = absurd (threw-done f r e)

  -- Wherever the repository of a workspace comes from, one of two variables or the origin of the
  -- checkout in each form that it may have, it is an owner, a slash and a name: an owner of at most 40
  -- letters, digits and dashes, with no dash at its ends, and a name of 1 to 100 letters, digits,
  -- underscores, dots and dashes that is not one or two dots alone.
  pub workspace-IsRepository :
      (env : Env) (w : Log) (r : Text)
      → (workspace_repository urlsplit env tt w).result ≡ done r
      → IsRepository r
  unfolding workspace_repository Canonical
  workspace-IsRepository env w r h =
      when_done _ r (workspace_repository urlsplit env tt w).log
        (bounded-Canonical env (env.environ (codes "FSGG_TELEMETRY_REPOSITORY")) _ w (
          bounded-Canonical env (env.environ (codes "GITHUB_REPOSITORY")) _ w
            (discover-Canonical env w))).after
        h

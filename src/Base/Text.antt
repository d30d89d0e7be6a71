-- ===== src/Base/Text.antt =====
-- Python's `str` as a list of code points, with the methods and character classes that the
-- scripts use. A pattern of `re` is a function that gives what it matched and what it left.
pub mod Decimal
use Prim.Native.Nat.{ℕ, zero, suc, ◌+◌, ◌-◌, ◌≤◌, ◌<◌}
use Prim.Native.Char.{code}
use Prim.Native.String.{String}
use mathlib.Core.Path.{◌≡◌, refl, ap, ap₂}
use mathlib.Core.Logic.{◌↔◌}
use mathlib.Core.Bool.{Bool, true, false, not, ◌&&◌, ◌||◌}
use mathlib.Core.Option.{Option, none, some}
use mathlib.Core.List.{List, [], ◌∷◌, ◌++◌, map}
use native.Mathlib.Omega.{arith}
use fs_quint.Base.Tests.{leb, ◌==◌, ==_iff, if◌then◌else◌}
use fs_quint.Base.Lists.{length, all}

abbrev pub Text : Type 0
Text = List ℕ

-- The code points of a literal.
abbrev pub codes : String → Text
codes String.[] = []
codes (String.◌∷◌ c s) = code c ∷ codes s

unfoldable pub same : Text → Text → Bool
same [] [] = true
same (c ∷ s) (d ∷ t) = c == d && same s t
same _ _ = false

pub same_iff : (s t : Text) → (same s t ≡ true) ↔ (s ≡ t)
unfolding same
same_iff [] [] = ground arith
same_iff [] (d ∷ t) = ground arith
same_iff (c ∷ s) [] = ground arith
same_iff (c ∷ s) (d ∷ t) = ground (arith, same_iff s t)

-- `x in xs`
unfoldable pub member : Text → List Text → Bool
unfolding same
member x [] = false
member x (y ∷ ys) = same x y || member x ys

-- `set(xs) == set(ys)`
unfoldable pub same_set : List Text → List Text → Bool
unfolding member
same_set xs ys = all (λ x. member x ys) xs && all (λ y. member y xs) ys

-- `\s` and `str.isspace`.
unfoldable pub is_space : ℕ → Bool
is_space c =
    (leb 9 c && leb c 13)
    || (leb 28 c && leb c 32)
    || c == 0x85
    || c == 0xa0
    || c == 0x1680
    || (leb 0x2000 c && leb c 0x200a)
    || c == 0x2028
    || c == 0x2029
    || c == 0x202f
    || c == 0x205f
    || c == 0x3000

-- `[0-9]`, `[a-z]`, `[A-Z]`, `[A-Za-z]`, `[0-9a-f]`
unfoldable pub is_digit : ℕ → Bool
is_digit c = leb b'0' c && leb c b'9'

unfoldable pub is_lower : ℕ → Bool
is_lower c = leb b'a' c && leb c b'z'

unfoldable pub is_upper : ℕ → Bool
is_upper c = leb b'A' c && leb c b'Z'

unfoldable pub is_letter : ℕ → Bool
unfolding is_lower is_upper
is_letter c = is_lower c || is_upper c

unfoldable pub is_hex : ℕ → Bool
unfolding is_digit
is_hex c = is_digit c || (leb b'a' c && leb c b'f')

-- `str.lower` on the ASCII letters. The scripts compare its result with hexadecimal text and with
-- `github.com`, and no other letter has its lower case in these.
unfoldable pub lower : Text → Text
unfolding is_upper
lower = map (λ c. if is_upper c then c + 32 else c)

-- `not xs`
abbrev pub empty {ℓ} : {A : Type ℓ} → List A → Bool
empty [] = true
empty (x ∷ xs) = false

-- A greedy run of one class: what it takes, and the rest.
unfoldable pub span : (ℕ → Bool) → Text → Text × Text
span p [] = ([], [])
span p (c ∷ s) = let (taken, rest) = span p s in if p c then (c ∷ taken, rest) else ([], c ∷ s)

-- A literal at the front: the rest behind it.
unfoldable pub after : Text → Text → Option Text
after [] s = some s
after (p ∷ ps) [] = none
after (p ∷ ps) (c ∷ s) = let rest = after ps s in if p == c then rest else none

abbrev found : Option Text → Bool
found none = false
found (some rest) = true

unfoldable pub starts_with : Text → Text → Bool
unfolding after
starts_with s prefix = found (after prefix s)

-- `needle in s`
unfoldable pub contains : Text → Text → Bool
unfolding starts_with
contains needle [] = starts_with [] needle
contains needle (c ∷ s) = starts_with (c ∷ s) needle || contains needle s

-- `(.*?)end` under DOTALL: the text up to the first `end`.
unfoldable pub until : Text → Text → Option Text
unfolding starts_with
until end [] = if starts_with [] end then some [] else none
until end (c ∷ s) = elim (starts_with (c ∷ s) end) [
  | true ↦ some []
  | false ↦ elim (until end s) [ none ↦ none | some taken ↦ some (c ∷ taken) ]
]

-- `re.finditer`: matches that do not overlap, from the left. `at` gives a match at the front and
-- its length, at least one; the first argument counts the characters that a match still covers.
unfoldable pub find_iter_from {ℓ} : {A : Type ℓ} → (Text → Option (A × ℕ)) → ℕ → Text → List A
find_iter_from at skip [] = []
find_iter_from at (suc skip) (c ∷ s) = find_iter_from at skip s
find_iter_from at zero (c ∷ s) = elim (at (c ∷ s)) [
  | none ↦ find_iter_from at zero s
  | some (a, n) ↦ a ∷ find_iter_from at (n - 1) s
]

unfoldable pub find_iter {ℓ} : {A : Type ℓ} → (Text → Option (A × ℕ)) → Text → List A
unfolding find_iter_from
find_iter at s = find_iter_from at zero s

-- `$` without MULTILINE: at the end, or before a last newline.
unfoldable pub at_end : Text → Bool
at_end [] = true
at_end (c ∷ []) = c == 10
at_end _ = false

unfoldable pub lstrip : Text → Text
unfolding is_space
lstrip [] = []
lstrip (c ∷ s) = let rest = lstrip s in if is_space c then rest else c ∷ s

-- Trailing white space goes where nothing else follows it.
unfoldable pub rstrip : Text → Text
unfolding is_space
rstrip [] = []
rstrip (c ∷ s) = elim (rstrip s) [ [] ↦ if is_space c then [] else c ∷ [] | d ∷ t ↦ c ∷ d ∷ t ]

unfoldable pub strip : Text → Text
unfolding lstrip rstrip
strip s = rstrip (lstrip s)

-- `sep.join(xs)`
unfoldable pub join : Text → List Text → Text
join sep [] = []
join sep (x ∷ []) = x
join sep (x ∷ y ∷ ys) = x ++ (sep ++ join sep (y ∷ ys))

-- `s.split()`: the runs of characters that are no white space. The first argument is the
-- run so far.
words_from : Text → Text → List Text
unfolding is_space
words_from run [] = if empty run then [] else run ∷ []
words_from run (c ∷ s) = elim (is_space c) [
  | false ↦ words_from (run ++ (c ∷ [])) s
  | true ↦ if empty run then words_from [] s else run ∷ words_from [] s
]

unfoldable pub words : Text → List Text
unfolding words_from
words s = words_from [] s

-- `" ".join(s.split())`
unfoldable pub squeeze : Text → Text
unfolding words join
squeeze s = join (codes " ") (words s)

-- The line boundaries of `str.splitlines`.
is_break : ℕ → Bool
is_break c =
    (leb 10 c && leb c 13) || (leb 28 c && leb c 30) || c == 0x85 || c == 0x2028 || c == 0x2029

-- A line feed behind a carriage return belongs to its boundary: the flag tells of the return.
lines_from : Bool → Text → Text → List Text
unfolding is_break
lines_from cr line [] = if empty line then [] else line ∷ []
lines_from cr line (c ∷ s) = elim (cr && c == 10) [
  | true ↦ lines_from false line s
  | false ↦ elim (is_break c) [
    | true ↦ line ∷ lines_from (c == 13) [] s
    | false ↦ lines_from false (line ++ (c ∷ [])) s
  ]
]

unfoldable pub splitlines : Text → List Text
unfolding lines_from
splitlines s = lines_from false [] s

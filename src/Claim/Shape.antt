-- ===== src/Claim/Shape.antt =====
-- check-claim-generation.py: the anchored patterns for branches, generations, items and commits.
-- Each is used by `match`, so `$` lets a last newline pass.
use fs_quint.Base.{
  ℕ, Bool, false, not, ◌&&◌, ◌||◌, Option, none, some, [], ◌∷◌, length, ◌==◌, if◌then◌else◌,
}
use fs_quint.Base.Text.{
  Text, codes, is_space, is_digit, is_lower, is_hex, span, after, at_end, empty,
}

-- `GEN_RE`, `^[0-9]+$`
unfoldable pub is_gen : Text → Bool
unfolding span is_digit at_end
is_gen s = let (digits, rest) = span is_digit s in not (empty digits) && at_end rest

-- `HEAD_SHA_RE`, `^[0-9a-f]{40}$`
unfoldable pub is_head_sha : Text → Bool
unfolding span is_hex at_end
is_head_sha s = let (digits, rest) = span is_hex s in length digits == 40 && at_end rest

-- `[^\s#]`
in_repo : ℕ → Bool
unfolding is_space
in_repo c = not (is_space c || c == b'#')

numbered : Text → Bool
unfolding is_gen
numbered [] = false
numbered (c ∷ s) = c == b'#' && is_gen s

-- `ITEM_RE`, `^(?P<repo>[^\s#]+)#(?P<n>[0-9]+)$`
unfoldable pub is_item : Text → Bool
unfolding span in_repo numbered
is_item s = let (repo, rest) = span in_repo s in not (empty repo) && numbered rest

dashed : Text → Text → Option Text
dashed digits [] = none
dashed digits (c ∷ s) = if not (empty digits) && c == b'-' then some digits else none

-- `ITEM_BRANCH_RE`, `^item/(?P<n>[0-9]+)-`: the digits.
unfoldable pub item_branch : Text → Option Text
unfolding span is_digit after dashed
item_branch ref = elim (after (codes "item/") ref) [
  | none ↦ none
  | some rest ↦ let (digits, tail) = span is_digit rest in dashed digits tail
]

-- `[a-z0-9]`, `[a-z0-9._-]`
in_slug : ℕ → Bool
unfolding is_lower is_digit
in_slug c = is_lower c || is_digit c

slug_tail : ℕ → Bool
unfolding in_slug
slug_tail c = in_slug c || c == b'.' || c == b'_' || c == b'-'

slug : Text → Bool
unfolding in_slug slug_tail span at_end
slug [] = false
slug (c ∷ s) = in_slug c && at_end (span slug_tail s).1

-- `ROUTINE_BRANCH_RE`, `^routine/[a-z0-9][a-z0-9._-]*$`
unfoldable pub routine_branch : Text → Bool
unfolding after slug
routine_branch ref = elim (after (codes "routine/") ref) [ none ↦ false | some rest ↦ slug rest ]

-- ===== src/Claim/Marker.antt =====
-- check-claim-generation.py: the marker grammars, `find_authorizations` and `marker_fields`, and
-- the shapes of branches, generations, items and commits.
use fs_quint.Base.{
  ℕ, ◌+◌, ◌-◌, Bool, not, ◌&&◌, Option, none, some, List, [], ◌∷◌, map, length, ◌==◌, if◌then◌else◌,
}
use fs_quint.Base.Text.{
  Text, codes, same, member, is_space, is_letter, span, after, until, find_iter, lstrip, empty,
}

-- `dict[str, str]`: the last value of a key stands.
abbrev pub Dict : Type 0
Dict = List (Text × Text)

unfoldable pub get : Text → Dict → Option Text
unfolding same
get k [] = none
get k ((j, v) ∷ d) = let rest = get k d in if same j k then some v else rest

unfoldable pub put : Text → Text → Dict → Dict
unfolding same
put k v [] = (k, v) ∷ []
put k v ((j, w) ∷ d) = let rest = put k v d in if same j k then (k, v) ∷ d else (j, w) ∷ rest

abbrev visible : ℕ → Bool
visible c = not (is_space c)

-- `FIELD_RE`, `(?P<k>[A-Za-z]+)=(?P<v>\S+)`, at the front of a text. A shorter key is never
-- followed by `=`, so there is nothing to go back for.
field_value : Text → Text → Option ((Text × Text) × ℕ)
unfolding span is_space
field_value k [] = none
field_value k (c ∷ s) =
    let v = (span visible s).0 in
    if not (empty k) && c == b'=' && not (empty v)
    then some ((k, v), length k + 1 + length v)
    else none

unfoldable pub field_at : Text → Option ((Text × Text) × ℕ)
unfolding field_value span is_letter
field_at s = let (k, rest) = span is_letter s in field_value k rest

-- The fields of `FIELD_RE.finditer`, and the dictionary of a loop over them.
unfoldable pub pairs : Text → List (Text × Text)
unfolding field_at find_iter
pairs s = find_iter field_at s

collect : Dict → List (Text × Text) → Dict
unfolding put
collect d [] = d
collect d ((k, v) ∷ rest) = collect (put k v d) rest

unfoldable pub fields_of : Text → Dict
unfolding collect pairs
fields_of s = collect [] (pairs s)

-- Behind the name of a marker: white space, and the text up to `-->`, with the characters used.
marker_body : Text → Text → Option (Text × ℕ)
unfolding lstrip until is_space
marker_body s [] = none
marker_body s (c ∷ rest) =
    let body = lstrip rest in
    if is_space c
    then elim (until (codes "-->") body) [
      | none ↦ none
      | some taken ↦ some (taken, length s - length body + length taken + 3)
    ]
    else none

-- `<!--\s*NAME\s+(?P<fields>.*?)-->` at the front of a text. Neither the name nor `-->` begins
-- with white space, so the greedy runs of it are never shortened.
unfoldable pub marker_at : Text → Text → Option (Text × ℕ)
unfolding marker_body after lstrip
marker_at name s = elim (after (codes "<!--") s) [
  | none ↦ none
  | some rest ↦ elim (after name (lstrip rest)) [ none ↦ none | some tail ↦ marker_body s tail ]
]

-- `AUTH_MARKER_RE`, `ROUTINE_MARKER_RE`
abbrev pub authorization : Text
authorization = codes "fsgg:pr-authorization"

abbrev pub routine_development : Text
routine_development = codes "fsgg:routine-development/v1"

unfoldable pub find_authorizations : Text → List Dict
unfolding marker_at find_iter fields_of
find_authorizations body = map fields_of (find_iter (marker_at authorization) body)

-- The keys that `marker_fields` met again, in the order in which they stand. The script joins them,
-- sorted and each once, under a key that no field has, and tests that text alone.
repeated : List Text → List (Text × Text) → List Text
unfolding member
repeated seen [] = []
repeated seen ((k, v) ∷ rest) =
    let later = repeated (k ∷ seen) rest in if member k seen then k ∷ later else later

pub record Marker : Type 0 where
  pub fields : Dict
  pub duplicates : List Text

unfoldable pub marker_fields : Text → Text → List Marker
unfolding marker_at find_iter fields_of repeated pairs
marker_fields name body =
    map (λ s. record { fields = fields_of s; duplicates = repeated [] (pairs s) })
      (find_iter (marker_at name) body)

-- `CLAIM_MARKER_RE.match`: one white space behind the name.
claim_body : Text → Option Text
unfolding is_space until
claim_body [] = none
claim_body (c ∷ rest) = let found = until (codes "-->") rest in if is_space c then found else none

unfoldable pub claim_marker : Text → Option Text
unfolding claim_body after lstrip
claim_marker body = elim (after (codes "<!--") body) [
  | none ↦ none
  | some rest ↦ elim (after (codes "fsgg:claim") (lstrip rest)) [
    | none ↦ none
    | some tail ↦ claim_body tail
  ]
]

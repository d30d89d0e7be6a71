-- ===== src/Telemetry/Credential.antt =====
-- fsgg_telemetry_defaults.py `workspace_credential_reference`.
pub mod Unordered
use fs_quint.Base.{
  ℕ, Bool, false, ◌&&◌, ◌||◌, ◌==◌, Option, none, some, List, [], ◌∷◌, any, all, leb, length,
  if◌then◌else◌,
}
use fs_quint.Base.Text.{Text, codes, empty, is_letter, is_digit}
use fs_quint.Host.Value.{Json, str, arr, obj, Fields, get, get_or_null, is_text, items}
use fs_quint.Host.Value.Equality.{same_json}
use fs_quint.Usage.{Tried, configuration, crash, done, threw}
use mathlib.Core.List.{filter_map}

unfoldable pub is_listed : Text → Json → Bool
unfolding is_text
is_listed repository (arr xs) = any (is_text repository) (items xs)
is_listed repository _ = false

unfoldable pub destined : Json → Option Json
unfolding get_or_null
destined (obj d) = some (get_or_null (codes "credentialReference") d)
destined _ = none

-- What an association adds to `matches`.
unfoldable pub match_of : Fields → Text → Json → Option Json
unfolding same_json is_listed destined get_or_null
match_of binding repository (obj a) =
    if same_json (get_or_null (codes "producerId") a) (get_or_null (codes "producerId") binding)
      && is_listed repository (get_or_null (codes "repositories") a)
    then destined (get_or_null (codes "destination") a)
    else none
match_of binding repository _ = none

reference_char : ℕ → Bool
unfolding is_letter is_digit
reference_char c = is_letter c || is_digit c || c == b'_' || c == b'-'

-- `[A-Za-z0-9][A-Za-z0-9_-]{0,63}`
unfoldable pub is_reference : Text → Bool
unfolding is_letter is_digit reference_char
is_reference [] = false
is_reference (c ∷ s) = (is_letter c || is_digit c) && all reference_char s && leb (length s) 63

unfoldable pub named : Json → Tried Text
unfolding is_reference
named (str t) = if is_reference t then done t else threw configuration
named _ = threw configuration

unfoldable pub only : List Json → Tried Text
unfolding named
only [] = threw configuration
only (m ∷ rest) = if empty rest then named m else threw configuration

-- `value.get("associations", [])`: a dictionary has keys to iterate over and a text characters, but
-- no dictionaries; other values cannot be iterated over.
unfoldable pub associations : Option Json → Tried (List Json)
unfolding items
associations none = done []
associations (some (arr xs)) = done (items xs)
associations (some (obj fs)) = done []
associations (some (str s)) = done []
associations _ = threw crash

unfoldable pub among : Fields → Text → Tried (List Json) → Tried Text
unfolding only match_of filter_map
among binding repository (threw f) = threw f
among binding repository (done xs) = only (filter_map (match_of binding repository) xs)

unfoldable pub workspace_credential_reference : Fields → Fields → Text → Tried Text
unfolding among associations get
workspace_credential_reference value binding repository =
    among binding repository (associations (get (codes "associations") value))

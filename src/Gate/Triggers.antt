-- ===== src/Gate/Triggers.antt =====
-- scripts/lib/gate.py `triggers`, `load_yaml` and `read_text`. `safe_load` of the YAML library and
-- `str` of a value of its documents are parameters.
pub mod Present
use fs_quint.Base.{
  Bool, true, false, not, Option, none, some, List, [], ◌∷◌, map, select, if◌then◌else◌,
}
use fs_quint.Base.Text.{Text, codes, same}
use fs_quint.Host.{
  Result, value, raised, gate_error, crash, FileRead, os_error, undecodable, contents,
}
use fs_quint.Host.Value.{Json, is_text, is_true}

-- A key of a document: a scalar, or something that is equal to no text and no number.
pub data Key : Type 0 where
  scalar : Json → Key
  other : Key

-- What may stand behind `on:`.
pub data Block (V : Type 0) : Type 0 where
  mapping : List (Key × V) → Block V
  sequence : List V → Block V
  text : Text → Block V
  unreadable : Block V

-- A mapping of the document as it is, or one of names to `None`.
pub data Triggers (V : Type 0) : Type 0 where
  kept : List (Key × V) → Triggers V
  named : List Text → Triggers V

unfoldable pub is_on : Key → Bool
unfolding is_text
is_on (scalar v) = is_text (codes "on") v
is_on other = false

unfoldable pub is_yes : Key → Bool
unfolding is_true
is_yes (scalar v) = is_true v
is_yes other = false

unfoldable pub dict_keys : List Text → List Text
unfolding same
dict_keys [] = []
dict_keys (k ∷ ks) = k ∷ select (λ j. not (same j k)) (dict_keys ks)

unfoldable pub lookup : {A : Type 0} → (Key → Bool) → List (Key × A) → Option A
lookup p [] = none
lookup p ((k, a) ∷ doc) = let later = lookup p doc in if p k then some a else later

module _ {V : Type 0} (show : V → Text) where
  unfoldable pub normalised : Block V → Result (Triggers V)
  unfolding dict_keys
  normalised (mapping m) = value (kept m)
  normalised (sequence xs) = value (named (dict_keys (map show xs)))
  normalised (text t) = value (named (t ∷ []))
  normalised unreadable = raised gate_error

  unfoldable pub from_key : Option (Block V) → Result (Triggers V) → Result (Triggers V)
  unfolding normalised
  from_key none rest = rest
  from_key (some b) rest = normalised b

  unfoldable pub triggers : List (Key × Block V) → Result (Triggers V)
  unfolding lookup is_on is_yes from_key
  triggers doc = from_key (lookup is_on doc) (from_key (lookup is_yes doc) (value (named [])))

-- `safe_load`: a `YAMLError`, a value that is no mapping, or a mapping.
pub data Loaded (V : Type 0) : Type 0 where
  broken scalar_top : Loaded V
  document : List (Key × Block V) → Loaded V

unfoldable pub load_yaml : {V : Type 0} → (Text → Loaded V) → Text → Result (List (Key × Block V))
load_yaml safe_load t = elim (safe_load t) [
  | broken ↦ raised gate_error
  | scalar_top ↦ raised gate_error
  | document doc ↦ value doc
]

unfoldable pub read_text : FileRead → Result Text
read_text os_error = raised gate_error
read_text undecodable = raised crash
read_text (contents t) = value t

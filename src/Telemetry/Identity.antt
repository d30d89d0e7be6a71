-- ===== src/Telemetry/Identity.antt =====
-- fsgg_telemetry_defaults.py `validate_identity`.
use fs_quint.Base.{
  ℕ, Bool, false, ◌&&◌, ◌||◌, ◌==◌, Option, none, some, [], ◌∷◌, leb, length, all, if◌then◌else◌,
}
use fs_quint.Base.Text.{Text, is_letter, is_digit}
use fs_quint.Usage.{Tried, configuration, done, threw}

identity_char : ℕ → Bool
unfolding is_letter is_digit
identity_char c =
    is_letter c
    || is_digit c
    || c == b'.'
    || c == b'_'
    || c == b':'
    || c == b'/'
    || c == b'@'
    || c == b'+'
    || c == b'-'

-- `fullmatch` of `[A-Za-z0-9][A-Za-z0-9._:/@+-]{0,199}`. Its `$` stands where the text must end.
unfoldable pub is_identity : Text → Bool
unfolding is_letter is_digit identity_char
is_identity [] = false
is_identity (c ∷ s) = (is_letter c || is_digit c) && all identity_char s && leb (length s) 199

unfoldable pub validate_identity : Text → Tried Text
unfolding is_identity
validate_identity t = if is_identity t then done t else threw configuration

-- With `optional=True`.
unfoldable pub validate_optional : Option Text → Tried (Option Text)
unfolding is_identity
validate_optional none = done none
validate_optional (some t) = if is_identity t then done (some t) else threw configuration

-- ===== src/Tests/Credentials.antt =====
-- A configuration with two associations, of which one is for the repository.
use fs_quint.Host.Value.{get, items}
use fs_quint.Base.{◌≡◌, refl}
use fs_quint.Base.Text.{Text, codes}
use fs_quint.Host.Value.{Json, str, arr, obj, Items, nil, cons, Fields, end, field}
use fs_quint.Usage.{configuration, done, threw}
use fs_quint.Telemetry.Credential.{workspace_credential_reference}
use fs_quint.Telemetry.Credential.Unordered.{credential_reordered}
use mathlib.Core.List.{Permᴰ}

-- An association of one repository with a credential of its name.
abbrev association : Text → Text → Json
association repository reference = obj (
    field (codes "producerId") (str (codes "p")) (
      field (codes "repositories") (arr (cons (str repository) nil)) (
        field (codes "destination") (obj (field (codes "credentialReference") (str reference) end))
          end)))

abbrev first : Json
first = association (codes "o/r") (codes "main")

abbrev second : Json
second = association (codes "o/s") (codes "other")

abbrev with_associations : Items → Fields
with_associations xs = field (codes "associations") (arr xs) end

abbrev binding : Fields
binding = field (codes "producerId") (str (codes "p")) end

one_match :
    workspace_credential_reference
      (with_associations (cons first (cons second nil)))
      binding
      (codes "o/r")
    ≡ done (codes "main")
unfolding workspace_credential_reference
one_match = refl

two_matches :
    workspace_credential_reference
      (with_associations (cons first (cons first nil)))
      binding
      (codes "o/r")
    ≡ threw configuration
unfolding workspace_credential_reference
two_matches = refl

credential_reordered_example :
    workspace_credential_reference
      (with_associations (cons first (cons second nil)))
      binding
      (codes "o/r")
    ≡ workspace_credential_reference
        (with_associations (cons second (cons first nil)))
        binding
        (codes "o/r")
unfolding get items
credential_reordered_example =
    credential_reordered (with_associations (cons first (cons second nil)))
      (with_associations (cons second (cons first nil))) binding (codes "o/r")
      (cons first (cons second nil)) (cons second (cons first nil)) refl refl (Permᴰ.swap refl refl)

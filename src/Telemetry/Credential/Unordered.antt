-- ===== src/Telemetry/Credential/Unordered.antt =====
-- The credential of a workspace does not depend on the order of the associations.
use fs_quint.Base.{◌≡◌, refl, ◌∙◌, List, some}
use fs_quint.Base.Text.{Text, codes, empty}
use fs_quint.Host.Value.{Json, arr, Items, items, Fields, get}
use fs_quint.Telemetry.Credential.{
  match_of, only, associations, among, workspace_credential_reference,
}
use mathlib.Core.List.{Permᴰ}
use mathlib.Core.List.Permᴰ

empty_reordered : {xs ys : List Json} → Permᴰ xs ys → empty xs ≡ empty ys
empty_reordered Permᴰ.nil = refl
empty_reordered (Permᴰ.cons e p) = refl
empty_reordered (Permᴰ.swap e f) = refl
empty_reordered (Permᴰ.trans p q) = empty_reordered p ∙ empty_reordered q

only_reordered : {xs ys : List Json} → Permᴰ xs ys → only xs ≡ only ys
unfolding only
only_reordered Permᴰ.nil = refl
only_reordered (Permᴰ.cons e p) = rw (e, empty_reordered p) refl
only_reordered (Permᴰ.swap e f) = refl
only_reordered (Permᴰ.trans p q) = only_reordered p ∙ only_reordered q

-- Two configurations whose associations are the same up to their order give the same credential,
-- or the same exception.
pub credential_reordered :
    (value other binding : Fields) (repository : Text) (xs ys : Items)
    → get (codes "associations") value ≡ some (arr xs)
    → get (codes "associations") other ≡ some (arr ys)
    → Permᴰ (items xs) (items ys)
    → workspace_credential_reference value binding repository
      ≡ workspace_credential_reference other binding repository
unfolding workspace_credential_reference associations among
credential_reordered value other binding repository xs ys h k p =
    rw (h, k) (only_reordered (Permᴰ.filter_map (match_of binding repository) p))

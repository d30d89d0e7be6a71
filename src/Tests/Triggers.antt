-- ===== src/Tests/Triggers.antt =====
-- Workflows whose triggers stand under the key `on`, or under true, as YAML 1.1 reads it.
use fs_quint.Base.{◌≡◌, refl, ◌⊎◌, true, List, [], ◌∷◌}
use fs_quint.Base.Text.{Text, codes}
use fs_quint.Host.{value, raised, gate_error}
use fs_quint.Host.Value.{str, bool}
use fs_quint.Gate.Triggers.{
  Key, scalar, Block, sequence, text, unreadable, named, is_on, is_yes, lookup, triggers,
}
use fs_quint.Gate.Triggers.Present.{IsUntriggered, IsVacuous, triggers-IsUntriggered}

-- The values of the documents here are texts.
abbrev shown : Text → Text
shown t = t

abbrev workflow : Block Text → List (Key × Block Text)
workflow b = (scalar (str (codes "name")), text (codes "check")) ∷ (scalar (bool true), b) ∷ []

abbrev repeated : Block Text
repeated = sequence (codes "push" ∷ codes "pull_request" ∷ codes "push" ∷ [])

read_once :
    triggers shown (workflow repeated) ≡ value (named (codes "push" ∷ codes "pull_request" ∷ []))
unfolding triggers
read_once = refl

unreadable_raises : triggers shown (workflow unreadable) ≡ raised gate_error
unfolding triggers
unreadable_raises = refl

triggers-IsUntriggered_example :
    IsUntriggered shown (workflow (sequence []))
    ⊎ (IsVacuous (lookup is_on (workflow (sequence [])))
        ⊎ IsVacuous (lookup is_yes (workflow (sequence []))))
unfolding triggers
triggers-IsUntriggered_example =
    triggers-IsUntriggered shown (workflow (sequence [])) (named []) refl refl

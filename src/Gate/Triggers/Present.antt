-- ===== src/Gate/Triggers/Present.antt =====
-- A workflow that has triggers is not read as one without.
use fs_quint.Base.{
  ◌≡◌, refl, arith, ◌⊎◌, Option-cases, inl, inr, Bool, true, false, Bool-cases, Option, none, some,
  List, [], ◌∷◌, All,
}
use fs_quint.Base.Text.{Text}
use fs_quint.Host.{value}
use fs_quint.Gate.Triggers.{
  Key, Block, mapping, sequence, text, unreadable, Triggers, kept, named, is_on, is_yes, dict_keys,
  lookup, normalised, from_key, triggers,
}

-- No trigger is named.
abbrev pub is_bare : {V : Type 0} → Triggers V → Bool
is_bare (kept []) = true
is_bare (named []) = true
is_bare _ = false

-- A block without an entry, of one of the two kinds that have entries.
abbrev pub IsVacuous : {V : Type 0} → Option (Block V) → Type 0
IsVacuous b = (b ≡ some (mapping [])) ⊎ (b ≡ some (sequence []))

lookup-All :
    {A : Type 0} (p : Key → Bool) (doc : List (Key × A))
    → lookup p doc ≡ none
    → All (λ e. p e.0 ≡ false) doc
unfolding lookup
lookup-All p [] h = tt
lookup-All p ((k, a) ∷ doc) h = elim (Bool-cases (p k)) [
  | inl y ↦ absurd (ground (arith, h, y))
  | inr n ↦ (n, lookup-All p doc (rw n at h))
]

module _ {V : Type 0} (show : V → Text) where
  -- The keys of a document, when what it gives names no trigger.
  pub record IsUntriggered (doc : List (Key × Block V)) : Type 0 where
    pub without_on : All (λ e. is_on e.0 ≡ false) doc
    pub without_yes : All (λ e. is_yes e.0 ≡ false) doc

  normalised-IsVacuous :
      (b : Block V) (t : Triggers V)
      → normalised show b ≡ value t
      → is_bare t ≡ true
      → IsVacuous (some b)
  unfolding normalised dict_keys
  normalised-IsVacuous (mapping []) t h e = inl refl
  normalised-IsVacuous (mapping (x ∷ m)) t h e = absurd (ground (arith, h, e))
  normalised-IsVacuous (sequence []) t h e = inr refl
  normalised-IsVacuous (sequence (x ∷ xs)) t h e = absurd (ground (arith, h, e))
  normalised-IsVacuous (text s) t h e = absurd (ground (arith, h, e))
  normalised-IsVacuous unreadable t h e = absurd (ground (arith, h))

  -- When no trigger is read from a workflow, it has neither of the keys `on` and true, or the block
  -- under one of them has no entry.
  pub triggers-IsUntriggered :
      (doc : List (Key × Block V)) (t : Triggers V)
      → triggers show doc ≡ value t
      → is_bare t ≡ true
      → IsUntriggered doc ⊎ (IsVacuous (lookup is_on doc) ⊎ IsVacuous (lookup is_yes doc))
  unfolding triggers from_key
  triggers-IsUntriggered doc t h e = elim (Option-cases (lookup is_on doc)) [
    | inr (b, y) ↦ inr (inl (rw y (normalised-IsVacuous b t (rw y at h) e)))
    | inl n ↦ elim (Option-cases (lookup is_yes doc)) [
      | inr (b, y) ↦ inr (inr (rw y (normalised-IsVacuous b t (rw (n, y) at h) e)))
      | inl m ↦
          inl
            (record { without_on = lookup-All is_on doc n; without_yes = lookup-All is_yes doc m })
    ]
  ]

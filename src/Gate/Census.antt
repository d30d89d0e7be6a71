-- ===== src/Gate/Census.antt =====
-- `SubjectCensus`, `subject_census`, `report_ok` and `report_findings`.
use fs_quint.Base.{if◌then◌else◌, ℤ, ◌≡◌, ◌≢◌, ◌⊎◌, Bool, not, ◌&&◌, List, [], ◌∷◌, All, select}
use fs_quint.Base.Text.{Text, member, same_set, empty, strip}
use fs_quint.Gate.{ok, finding, no_verdict_permanent, code}

pub record SubjectCensus : Type 0 where
  pub declared : List Text
  pub resolved : List Text
  pub examined : List Text
  pub producers : List Text
  pub authority_revision : Text
  pub authority_digest : Text

unfoldable pub unresolved : SubjectCensus → List Text
unfolding member
unresolved c = select (λ s. not (member s c.resolved)) c.declared

unfoldable pub unexamined_producers : SubjectCensus → List Text
unfolding member
unexamined_producers c = select (λ s. not (member s c.examined)) c.producers

unfoldable pub complete : SubjectCensus → Bool
unfolding unresolved unexamined_producers same_set strip
complete c =
    not (empty c.declared)
    && not (empty c.resolved)
    && not (empty c.examined)
    && not (empty c.producers)
    && not (empty (strip c.authority_revision))
    && not (empty (strip c.authority_digest))
    && empty (unresolved c)
    && empty (unexamined_producers c)
    && same_set c.resolved c.declared

-- The digest of the declaration is SHA-256 of its canonical JSON, a parameter here.
unfoldable pub subject_census :
    (Text → List Text → List Text → Text)
    → List Text
    → List Text
    → List Text
    → List Text
    → Text
    → SubjectCensus
subject_census digest declared resolved examined producers revision = record {
  declared = declared;
  resolved = resolved;
  examined = examined;
  producers = producers;
  authority_revision = revision;
  authority_digest = digest revision declared producers;
}

unfoldable pub report_ok : SubjectCensus → ℤ
unfolding complete code
report_ok c = if complete c then code ok else code no_verdict_permanent

unfoldable pub report_findings : List Text → ℤ
unfolding code
report_findings findings = code finding

-- The text is an item of the list.
abbrev pub Has : Text → List Text → Type 0
Has s [] = ⊥
Has s (t ∷ ts) = (s ≡ t) ⊎ Has s ts

-- What a green report rests on, without the code's sets and comprehensions.
pub record IsComplete (c : SubjectCensus) : Type 0 where
  pub declares : c.declared ≢ []
  pub examines : c.examined ≢ []
  pub produces : c.producers ≢ []
  pub revision : strip c.authority_revision ≢ []
  pub digest : strip c.authority_digest ≢ []
  pub all_resolved : All (λ s. Has s c.resolved) c.declared
  pub none_undeclared : All (λ s. Has s c.declared) c.resolved
  pub all_examined : All (λ s. Has s c.examined) c.producers

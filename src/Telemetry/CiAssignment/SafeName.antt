-- ===== src/Telemetry/CiAssignment/SafeName.antt =====
-- What creating an assignment may write: one file of a harmless name, in one directory.
use fs_quint.Base.{
  ◌≡◌, refl, ap, ◌⊎◌, inl, inr, arith, ℕ, zero, suc, ◌≤◌, true, not, pos, eqb_ℤ, Bool-cases, List,
  [], ◌∷◌, ◌++◌, All, length, if◌then◌else◌,
}
use fs_quint.Base.Text.{Text, codes, is_letter, is_digit, is_lower, is_upper}
use fs_quint.Host.Value.{Json}
use fs_quint.Usage.{Tried, configuration, done, threw}
use fs_quint.Telemetry.Machine.{
  Event, saved, submitted, called, wrote, Log, Act, Completed, completed, lift, observe, ◌>>=◌,
}
use fs_quint.Telemetry.Host.{
  Env, HostConfig, Directory, unmade, shared, private, Write, written, unwritten, written_then,
}
use fs_quint.Telemetry.Command.{validate_workspace, checked, judged, run}
use fs_quint.Telemetry.Files.{write_private_json, place, in_private}
use fs_quint.Telemetry.Runs.{After, Runs, Runs-pure, Runs-raise, Runs-if, Runs-lift, Runs->>=}
use fs_quint.Telemetry.CiAssignment.{
  Assigned, ci_schema, assignment_payload, safe_name, is_safe, replaced, shortened,
}
use fs_quint.Telemetry.CiAssignment.Create.{create_assignment, create_ci}

-- A letter of ASCII, a digit, a dot, an underscore or a dash.
abbrev pub IsHarmless : ℕ → Type 0
IsHarmless c =
    ((48 ≤ c) × (c ≤ 57))
    ⊎ ((65 ≤ c) × (c ≤ 90))
    ⊎ ((97 ≤ c) × (c ≤ 122))
    ⊎ (c ≡ b'.')
    ⊎ (c ≡ b'_')
    ⊎ (c ≡ b'-')

pub record IsSafeName (s : Text) : Type 0 where
  pub characters : All IsHarmless s
  pub bounded : length s ≤ 180

-- The event is no save and no submission, and what it writes is a file of the directory.
abbrev pub IsConfined : Event → Type 0
IsConfined (saved d) = ⊥
IsConfined (submitted t b p) = ⊥
IsConfined (called argv) = Unit
IsConfined (wrote folder name j) = (folder ≡ codes "assignments") × IsSafeName name

-- The log grew by confined events.
pub record Confined (w v : Log) : Type 0 where
  pub events : List Event
  pub grown : v ≡ events ++ w
  pub kinds : All IsConfined events

safe-IsHarmless : (c : ℕ) → is_safe c ≡ true → IsHarmless c
unfolding is_safe is_letter is_digit is_lower is_upper
safe-IsHarmless c h = ground arith

kept-IsHarmless : (c : ℕ) → IsHarmless (if is_safe c then c else b'_')
kept-IsHarmless c = elim (Bool-cases (is_safe c)) [
  | inl y ↦ rw y (safe-IsHarmless c y)
  | inr n ↦ rw n (inr (inr (inr (inr (inl refl)))))
]

replaced-IsHarmless : (s : Text) → All IsHarmless (replaced s)
unfolding replaced
replaced-IsHarmless [] = tt
replaced-IsHarmless (c ∷ s) = (kept-IsHarmless c, replaced-IsHarmless s)

shortened-IsHarmless : (n : ℕ) (s : Text) → All IsHarmless s → All IsHarmless (shortened n s)
unfolding shortened
shortened-IsHarmless zero s a = tt
shortened-IsHarmless (suc n) [] a = tt
shortened-IsHarmless (suc n) (c ∷ s) a = (a.0, shortened-IsHarmless n s a.1)

shortened-length : (n : ℕ) (s : Text) → length (shortened n s) ≤ n
unfolding shortened
shortened-length zero s = omega arith
shortened-length (suc n) [] = omega arith
shortened-length (suc n) (c ∷ s) = omega (arith, shortened-length n s)

safe_name-IsSafeName : (a : Assigned) → IsSafeName (safe_name a)
unfolding safe_name
safe_name-IsSafeName a = record {
  characters = shortened-IsHarmless 180 (replaced _) (replaced-IsHarmless _);
  bounded = shortened-length 180 (replaced _);
}

-- The action, started at a log, adds confined events to the log of the whole.
abbrev Stays : {A : Type 0} → Log → Act Unit A → Log → Type 0
Stays w m v = Runs (λ a s. Confined w) (λ f s. Confined w) m tt v

Confined-one : (w v : Log) (e : Event) → IsConfined e → Confined w v → Confined w (e ∷ v)
Confined-one w v e k c = record {
  events = e ∷ c.events;
  grown = ap (λ u. e ∷ u) c.grown;
  kinds = (k, c.kinds);
}

judged-Stays : (r : Tried Completed) (w v : Log) → Confined w v → Stays w (judged r) v
unfolding judged
judged-Stays (threw f) w v c = Runs-raise configuration tt v c
judged-Stays (done p) w v c =
    Runs-if (eqb_ℤ p.status (pos 0)) _ _ tt v (λ h. Runs-pure tt tt v c)
      (λ h. Runs-raise configuration tt v c)

place-Stays :
    (r : Write) (e : Event) (w v : Log) → IsConfined e → Confined w v → Stays w (place r e) v
unfolding place
place-Stays written e w v k c = record { after = Confined-one w v e k c }
place-Stays (unwritten f) e w v k c = record { after = c }
place-Stays (written_then f) e w v k c = record { after = Confined-one w v e k c }

private-Stays :
    (d : Directory) (m : Act Unit Unit) (w v : Log)
    → Confined w v
    → Stays w m v
    → Stays w (in_private d m) v
unfolding in_private
private-Stays (unmade f) m w v c h = record { after = c }
private-Stays shared m w v c h = record { after = c }
private-Stays private m w v c h = h

module _ (env : Env) (config : HostConfig) where
  validate-Stays : (w v : Log) → Confined w v → Stays w (validate_workspace env config) v
  unfolding validate_workspace checked run
  validate-Stays w v c =
      Runs-if (not config.workspace) _ _ tt v (λ h. Runs-pure tt tt v c)
        (λ h. record {
          after =
              (judged-Stays (completed (env.proc v _)) w (called _ ∷ v)
                (Confined-one w v (called _) tt c)).after;
        })

  write-Stays :
      (folder name : Text) (j : Json) (w v : Log)
      → IsConfined (wrote folder name j)
      → Confined w v
      → Stays w (write_private_json env folder name (wrote folder name j)) v
  unfolding write_private_json
  write-Stays folder name j w v k c = record {
    after =
        (private-Stays (env.directory v folder)
          (observe (λ u. env.write u folder name) >>= λ r. place r (wrote folder name j)) w v c
          (record {
            after = (place-Stays (env.write v folder name) (wrote folder name j) w v k c).after;
          })).after;
  }

  -- However the creation of an assignment ends, and whatever its identities are, it adds to the log
  -- only commands and files of the directory `assignments` whose names have at most 180 characters,
  -- all of them letters of ASCII, digits, dots, underscores or dashes, so no separator of a path.
  pub create_ci-Confined : (x : Assigned) (w : Log) → Confined w (create_ci env config x tt w).log
  unfolding create_ci create_assignment
  create_ci-Confined x w =
      whatever (create_ci env config x tt w).result _
        (Runs->>= (λ a s. Confined w) (validate_workspace env config) _ tt w
          (validate-Stays w w (record { events = []; grown = refl; kinds = tt }))
          (λ t s v b.
            Runs->>= (λ a s. Confined w) (lift (assignment_payload ci_schema x)) _ s v
              (Runs-lift (assignment_payload ci_schema x) s v (λ a h. b) (λ f. b))
              (λ payload s u c.
                Runs->>= (λ a s. Confined w)
                  (write_private_json env (codes "assignments") (safe_name x) _) _ s u
                  (write-Stays (codes "assignments") (safe_name x) payload w u
                    (refl, safe_name-IsSafeName x) c)
                  (λ r s z d. Runs-pure (safe_name x) s z d)))).after
    where
      whatever :
          (r : Tried Text) (v : Log)
          → After {S = Unit {0}} (λ a s. Confined w) (λ f s. Confined w) r tt v
          → Confined w v
      whatever (done a) v h = h
      whatever (threw f) v h = h

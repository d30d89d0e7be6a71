-- ===== src/Telemetry/History/Delivery.antt =====
-- A publication stays in its file until the engine has answered it.
use fs_quint.Base.{
  ◌≡◌, sym, ap, ◌∙◌, subst, arith, ◌⊎◌, List, [], ◌∷◌, ◌++◌, inl, inr, Bool-cases, Option, none,
  some,
}
use fs_quint.Base.Text.{Text, same, same_iff}
use fs_quint.Host.{Proc}
use fs_quint.Telemetry.Machine.{
  State, Batch, Pending, Event, saved, submitted, called, wrote, Log, stored,
}
use fs_quint.Telemetry.Ahead.{
  Core, core, Move, stay, announce, settle, withdraw, standing_in, Ahead, Accepted, Rejected,
}
use fs_quint.Telemetry.Ahead.Saving.{same_refl}
use fs_quint.Telemetry.History.{Reached, Reached-Ahead, IsSuccess, IsRefusal, Answered}

-- The engine took the batch, or refused it as invalid.
pub IsAnswer : Proc → Type 0
IsAnswer proc = IsSuccess proc ⊎ IsRefusal proc

Accepted-newest :
    (v : List Event) (d : State) (w : Log) (t : Text) (b : Batch)
    → Accepted (v ++ (saved d ∷ w)) t b
    → Answered IsAnswer t b v
unfolding Answered IsAnswer
Accepted-newest [] d w t b r = absurd r.sent
Accepted-newest (submitted u c proc ∷ v) d w t b r =
    inl (r.sent.0, r.sent.1, inl (record { end = r.end; ended = r.sent.2; success = r.success }))
Accepted-newest (saved e ∷ v) d w t b r = absurd r.sent
Accepted-newest (called a ∷ v) d w t b r = absurd r.sent
Accepted-newest (wrote f n j ∷ v) d w t b r = absurd r.sent

Rejected-newest :
    (v : List Event) (d : State) (w : Log) (t : Text) (b : Batch)
    → Rejected (v ++ (saved d ∷ w)) t b
    → Answered IsAnswer t b v
unfolding Answered IsAnswer
Rejected-newest [] d w t b r = absurd r.sent
Rejected-newest (submitted u c proc ∷ v) d w t b r = inl (
  r.sent.0,
  r.sent.1,
  inr (record { end = r.end; ended = r.sent.2; failure = r.failure; invalid = r.invalid }),
)
Rejected-newest (saved e ∷ v) d w t b r = absurd r.sent
Rejected-newest (called a ∷ v) d w t b r = absurd r.sent
Rejected-newest (wrote f n j ∷ v) d w t b r = absurd r.sent

some-injective : (p q : Pending) → some p ≡ some q → p ≡ q
some-injective p q e = ap (λ o. elim o [ some x ↦ x | none ↦ p ]) e

Waits : Pending → Text → List Event → Option State → Type 0
Waits p t v none = ⊥
Waits p t v (some c) = (c.pending ≡ some p) ⊎ Answered IsAnswer t p.batch v

-- A save that follows a pending publication keeps it, or comes right behind its answer.
Move-waits :
    (p : Pending) (v : List Event) (d : State) (w : Log) (t : Text) (b c : Core)
    → b.pending ≡ some p
    → Move (v ++ (saved d ∷ w)) t b c
    → (c.pending ≡ some p) ⊎ Answered IsAnswer t p.batch v
Move-waits p v d w t b c e (stay f) = inl (ap (λ k. k.pending) (sym f) ∙ e)
Move-waits p v d w t b c e (announce q f g h i j) = absurd (ground (arith, e, f))
Move-waits p v d w t b c e (settle q f g h) = inr (
    Accepted-newest v d w t p.batch
      (subst (λ x. Accepted (v ++ (saved d ∷ w)) t x.batch) (some-injective q p (sym f ∙ e)) g))
Move-waits p v d w t b c e (withdraw q n f g h i) = inr (
    Rejected-newest v d w t p.batch
      (subst (λ x. Rejected (v ++ (saved d ∷ w)) t x.batch) (some-injective q p (sym f ∙ e)) g))

save-Waits :
    (p : Pending) (v : List Event) (d : State) (w : Log) (e : State) (t : Text) (o : Option State)
    → Waits p t v o
    → Move (v ++ (saved d ∷ w)) t (standing_in o e.invocation) (core e)
    → Waits p t v (some e)
unfolding Waits
save-Waits p v d w e t none h m = absurd h
save-Waits p v d w e t (some c) (inr h) m = inr h
save-Waits p v d w e t (some c) (inl h) m = Move-waits p v d w t (core c) (core e) h m

later-Waits :
    (p : Pending) (t : Text) (v : List Event) (e : Event) (o : Option State)
    → Waits p t v o
    → Waits p t (e ∷ v) o
unfolding Waits Answered
later-Waits p t v e none h = h
later-Waits p t v e (some c) (inl h) = inl h
later-Waits p t v (submitted u b q) (some c) (inr h) = inr (inr h)
later-Waits p t v (saved d) (some c) (inr h) = inr h
later-Waits p t v (called x) (some c) (inr h) = inr h
later-Waits p t v (wrote f n j) (some c) (inr h) = inr h

waits :
    (d : State) (p : Pending) (v : List Event) (w : Log)
    → d.pending ≡ some p
    → Ahead (v ++ (saved d ∷ w))
    → Waits p d.token v (stored d.token (v ++ (saved d ∷ w)))
unfolding stored Waits
waits d p [] w e a = rw (same_refl d.token) (inl e)
waits d p (saved f ∷ v) w e a = elim (Bool-cases (same f.token d.token)) [
  | inl y ↦ rw y (
      later-Waits p d.token v (saved f) (some f) (
        save-Waits p v d w f d.token (stored d.token (v ++ (saved d ∷ w))) (waits d p v w e a.1) (
          subst
            (λ u.
              Move (v ++ (saved d ∷ w)) u (standing_in (stored u (v ++ (saved d ∷ w))) f.invocation)
                (core f))
            ((same_iff f.token d.token).0 y) a.0.move)))
  | inr n ↦ rw n (later-Waits p d.token v (saved f) _ (waits d p v w e a.1))
]
waits d p (submitted u b q ∷ v) w e a =
    later-Waits p d.token v (submitted u b q) _ (waits d p v w e a.1)
waits d p (called x ∷ v) w e a = later-Waits p d.token v (called x) _ (waits d p v w e a.1)
waits d p (wrote f n j ∷ v) w e a = later-Waits p d.token v (wrote f n j) _ (waits d p v w e a.1)

-- A publication that was saved as pending is still pending in the file of its token, unless since
-- then its batch was submitted for the token and the engine took it or refused it as invalid.
pub pending-stays :
    (d c : State) (p : Pending) (v w : Log)
    → Reached (v ++ (saved d ∷ w))
    → d.pending ≡ some p
    → stored d.token (v ++ (saved d ∷ w)) ≡ some c
    → (c.pending ≡ some p) ⊎ Answered IsAnswer d.token p.batch v
unfolding Waits
pending-stays d c p v w r e h =
    subst (Waits p d.token v) h (waits d p v w e (Reached-Ahead (v ++ (saved d ∷ w)) r))

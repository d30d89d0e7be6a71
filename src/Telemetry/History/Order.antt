-- ===== src/Telemetry/History/Order.antt =====
-- Phases only climb.
use fs_quint.Base.{
  ◌≡◌, sym, subst, arith, ℕ, ◌≤◌, List, [], ◌∷◌, ◌++◌, inl, inr, true, Bool-cases, Option, none,
  some,
}
use fs_quint.Base.Text.{Text, same, same_iff}
use fs_quint.Telemetry.Machine.{Phase, State, Event, saved, submitted, called, wrote, Log, stored}
use fs_quint.Telemetry.Publish.{same_phase}
use fs_quint.Telemetry.Ahead.{
  Core, core, Move, stay, announce, settle, withdraw, standing_in, Ahead, Sound, SoundPending, fits,
  climbs, rank,
}
use fs_quint.Telemetry.Ahead.Saving.{stored-Sound, same_refl}
use fs_quint.Telemetry.History.{Reached, Reached-Ahead}

climbs-rank : (p q : Phase) → climbs p q ≡ true → rank p ≤ rank q
unfolding climbs same_phase
climbs-rank p q h = ground arith

fits-rank : (p q : Phase) → fits p q ≡ true → rank p ≤ rank q
unfolding fits same_phase
fits-rank p q h = ground arith

Move-rank : (w : Log) (t : Text) (c d : Core) → Sound c → Move w t c d → rank c.phase ≤ rank d.phase
unfolding SoundPending
Move-rank w t c d s (stay e) = subst (λ k. rank c.phase ≤ rank k.phase) e (omega arith)
Move-rank w t c d s (announce p e f g h i) = climbs-rank c.phase d.phase i
Move-rank w t c d s (settle p e f g) =
    subst (λ k. rank c.phase ≤ rank k.phase) (sym g)
      (fits-rank c.phase p.next_phase
        (subst (SoundPending c.invocation c.sequence c.phase) e s).goal)
Move-rank w t c d s (withdraw p n e f g h) =
    subst (λ k. rank c.phase ≤ rank k.phase) (sym h) (omega arith)

-- The file of a token is at or past a rank.
Above : ℕ → Option State → Type 0
Above r none = ⊥
Above r (some d) = r ≤ rank d.phase

save-Above :
    (r : ℕ) (w : Log) (o : Option State) (d : State)
    → Above r o
    → Sound (standing_in o d.invocation)
    → Move w d.token (standing_in o d.invocation) (core d)
    → r ≤ rank d.phase
unfolding Above
save-Above r w none d h s m = absurd h
save-Above r w (some c) d h s m = omega (arith, h, Move-rank w d.token (core c) (core d) s m)

above :
    (d : State) (v : List Event) (w : Log)
    → Ahead (v ++ (saved d ∷ w))
    → Above (rank d.phase) (stored d.token (v ++ (saved d ∷ w)))
unfolding stored Above
above d [] w a = rw (same_refl d.token) (omega arith)
above d (saved e ∷ v) w a = elim (Bool-cases (same e.token d.token)) [
  | inl y ↦ rw y (
      save-Above (rank d.phase) (v ++ (saved d ∷ w)) (stored e.token (v ++ (saved d ∷ w))) e
        (subst (λ u. Above (rank d.phase) (stored u (v ++ (saved d ∷ w))))
          (sym ((same_iff e.token d.token).0 y)) (above d v w a.1))
        (stored-Sound e.token e.invocation (v ++ (saved d ∷ w)) a.1) a.0.move)
  | inr n ↦ rw n (above d v w a.1)
]
above d (submitted u b p ∷ v) w a = above d v w a.1
above d (called x ∷ v) w a = above d v w a.1
above d (wrote f n j ∷ v) w a = above d v w a.1

-- Of two saves of one token, the later one never has an earlier phase.
pub phase-climbs :
    (d e : State) (v w : Log)
    → Reached (saved e ∷ (v ++ (saved d ∷ w)))
    → e.token ≡ d.token
    → rank d.phase ≤ rank e.phase
phase-climbs d e v w r t =
    let a = Reached-Ahead (saved e ∷ (v ++ (saved d ∷ w))) r in
    save-Above (rank d.phase) (v ++ (saved d ∷ w)) (stored e.token (v ++ (saved d ∷ w))) e
      (subst (λ u. Above (rank d.phase) (stored u (v ++ (saved d ∷ w)))) (sym t) (above d v w a.1))
      (stored-Sound e.token e.invocation (v ++ (saved d ∷ w)) a.1) a.0.move

-- ===== src/Telemetry/History/Replay.antt =====
-- A cursor stands for one batch, unless the engine refused it.
use fs_quint.Base.{
  ◌≡◌, sym, ap, ◌∙◌, subst, arith, ℕ, suc, ◌≤◌, List, [], ◌∷◌, ◌++◌, ◌⊎◌, inl, inr, Bool-cases,
  Option, none, some,
}
use fs_quint.Base.Text.{Text, same, same_iff}
use fs_quint.Base.Text.Decimal.{show_nat, show_nat-injective}
use fs_quint.Host.{Proc}
use fs_quint.Telemetry.Machine.{
  State, Batch, Pending, Event, saved, submitted, called, wrote, Log, stored,
}
use fs_quint.Telemetry.Ahead.{
  Core, core, Move, stay, announce, settle, withdraw, standing_in, Submits, Ahead, Rejected, Sound,
  SoundPending,
}
use fs_quint.Telemetry.Ahead.Saving.{stored-Sound}
use fs_quint.Telemetry.History.{Reached, Reached-Ahead, IsRefusal, Answered, suffix-Ahead}

-- The sequence is past the batch, or at it and the batch is pending or done.
pub record At (n : ℕ) (b : Batch) (c : Core) : Type 0 where
  pub past : n ≤ c.sequence
  pub only : c.sequence ≡ n → (p : Pending) → c.pending ≡ some p → p.batch ≡ b

unfoldable pub Tracks : ℕ → Text → Batch → Log → Option State → Type 0
Tracks n t b v none = Answered IsRefusal t b v
Tracks n t b v (some d) = At n b (core d) ⊎ Answered IsRefusal t b v

refused_newest :
    (v : Log) (e : Event) (t : Text) (b : Batch) (w : Log)
    → Rejected (v ++ (e ∷ w)) t b
    → Answered IsRefusal t b (v ++ (e ∷ []))
unfolding Answered
refused_newest [] (submitted u c proc) t b w r = inl (
  r.sent.0,
  r.sent.1,
  record { end = r.end; ended = r.sent.2; failure = r.failure; invalid = r.invalid },
)
refused_newest [] (saved d) t b w r = absurd r.sent
refused_newest [] (called a) t b w r = absurd r.sent
refused_newest [] (wrote f n j) t b w r = absurd r.sent
refused_newest (submitted u c proc ∷ v) e t b w r = inl (
  r.sent.0,
  r.sent.1,
  record { end = r.end; ended = r.sent.2; failure = r.failure; invalid = r.invalid },
)
refused_newest (saved d ∷ v) e t b w r = absurd r.sent
refused_newest (called a ∷ v) e t b w r = absurd r.sent
refused_newest (wrote f n j ∷ v) e t b w r = absurd r.sent

-- A legal save keeps the sequence at or past the batch, or withdraws the batch itself.
Move-At :
    (n : ℕ) (b : Batch) (t : Text) (x : Log) (c d : Core)
    → At n b c
    → Move x t c d
    → At n b d ⊎ Rejected x t b
Move-At n b t x c d a (stay e) = inl (subst (At n b) e a)
Move-At n b t x c d a (announce p e f g h i) =
    inl
      (record { past = omega (arith, a.past, g); only = λ k. absurd (omega (arith, a.past, g, k)) })
Move-At n b t x c d a (settle p e f g) =
    inl (
      subst (At n b) (sym g) (record { past = a.past; only = λ k q r. absurd (ground (arith, r)) }))
Move-At n b t x c d a (withdraw p m e f g h) = elim (trichotomy c.sequence n a.past) [
  | inl k ↦ inr (subst (Rejected x t) (a.only k p e) f)
  | inr k ↦ inl (
      subst (At n b) (sym h)
        (record { past = omega (arith, g, k); only = λ l q r. absurd (ground (arith, r)) }))
]
  where
    trichotomy : (i j : ℕ) → j ≤ i → (i ≡ j) ⊎ (suc j ≤ i)
    trichotomy i j h = ground (arith, h)

-- The file that a submission was made from, and its sequence.
Submits-At :
    (t : Text) (b : Batch) (w : Log) (s : Submits t b w) → At s.file.sequence b (core s.file)
Submits-At t b w s = record {
  past = omega arith;
  only = λ k p e. ground (arith, e, s.is_pending, s.same_batch);
}

pub Submits-cursor :
    (t : Text) (b : Batch) (w : Log) (s : Submits t b w)
    → Ahead w
    → b.cursor ≡ show_nat s.file.sequence
unfolding SoundPending
Submits-cursor t b w s a =
    let sound =
      subst (λ o. Sound (standing_in o s.file.invocation)) s.is_stored
        (stored-Sound t s.file.invocation w a) in
    let sends =
      subst (SoundPending s.file.invocation s.file.sequence s.file.phase) s.is_pending sound in
    sym (ap (λ c. c.cursor) s.same_batch) ∙ sends.cursor

save-Tracks :
    (n : ℕ) (t : Text) (b : Batch) (v : List Event) (e : Event) (w : Log) (d : State)
    (o : Option State)
    → d.token ≡ t
    → Tracks n t b (v ++ (e ∷ [])) o
    → Move (v ++ (e ∷ w)) d.token (standing_in o d.invocation) (core d)
    → Tracks n t b (v ++ (e ∷ [])) (some d)
unfolding Tracks
save-Tracks n t b v e w d none q h m = inr h
save-Tracks n t b v e w d (some c) q (inr h) m = inr h
save-Tracks n t b v e w d (some c) q (inl h) m =
    elim (Move-At n b t (v ++ (e ∷ w)) (core c) (core d) h
      (subst (λ u. Move (v ++ (e ∷ w)) u (core c) (core d)) q m)) [
        | inl k ↦ inl k
        | inr r ↦ inr (refused_newest v e t b w r)
      ]

-- An event that is no save of the token leaves what is tracked.
later-Tracks :
    (n : ℕ) (t : Text) (b : Batch) (v : List Event) (e : Event) (o : Option State)
    → Tracks n t b v o
    → Tracks n t b (e ∷ v) o
unfolding Tracks Answered
later-Tracks n t b v (submitted u c proc) none h = inr h
later-Tracks n t b v (saved d) none h = h
later-Tracks n t b v (called a) none h = h
later-Tracks n t b v (wrote f m j) none h = h
later-Tracks n t b v (submitted u c proc) (some d) (inr h) = inr (inr h)
later-Tracks n t b v (saved c) (some d) (inr h) = inr h
later-Tracks n t b v (called a) (some d) (inr h) = inr h
later-Tracks n t b v (wrote f m j) (some d) (inr h) = inr h
later-Tracks n t b v e (some d) (inl h) = inl h

pub track :
    (t : Text) (b : Batch) (proc : Proc) (v : List Event) (w : Log) (s : Submits t b w)
    → Ahead (v ++ (submitted t b proc ∷ w))
    → Tracks s.file.sequence t b
        (v ++ (submitted t b proc ∷ []))
        (stored t (v ++ (submitted t b proc ∷ w)))
unfolding stored Tracks
track t b proc [] w s a =
    subst (Tracks s.file.sequence t b (submitted t b proc ∷ [])) (sym s.is_stored)
      (inl (Submits-At t b w s))
track t b proc (saved d ∷ v) w s a = elim (Bool-cases (same d.token t)) [
  | inl y ↦ rw y (
      later-Tracks s.file.sequence t b (v ++ (submitted t b proc ∷ [])) (saved d) (some d) (
        save-Tracks s.file.sequence t b v (submitted t b proc) w d
          (stored t (v ++ (submitted t b proc ∷ w))) ((same_iff d.token t).0 y)
          (track t b proc v w s a.1)
          (subst
            (λ u.
              Move (v ++ (submitted t b proc ∷ w)) d.token
                (standing_in (stored u (v ++ (submitted t b proc ∷ w))) d.invocation) (core d))
            ((same_iff d.token t).0 y) a.0.move)))
  | inr x ↦ rw x (
      later-Tracks s.file.sequence t b (v ++ (submitted t b proc ∷ [])) (saved d) _
        (track t b proc v w s a.1))
]
track t b proc (submitted u c q ∷ v) w s a =
    later-Tracks s.file.sequence t b (v ++ (submitted t b proc ∷ [])) (submitted u c q) _
      (track t b proc v w s a.1)
track t b proc (called x ∷ v) w s a =
    later-Tracks s.file.sequence t b (v ++ (submitted t b proc ∷ [])) (called x) _
      (track t b proc v w s a.1)
track t b proc (wrote f n j ∷ v) w s a =
    later-Tracks s.file.sequence t b (v ++ (submitted t b proc ∷ [])) (wrote f n j) _
      (track t b proc v w s a.1)

same_cursor :
    (t : Text) (b c : Batch) (n : ℕ) (v : Log) (x : Log) (s : Submits t c x)
    → Ahead x
    → Tracks n t b v (stored t x)
    → b.cursor ≡ show_nat n
    → c.cursor ≡ b.cursor
    → (c ≡ b) ⊎ Answered IsRefusal t b v
unfolding Tracks
same_cursor t b c n v x s a h e f = elim (subst (Tracks n t b v) s.is_stored h) [
  | inr r ↦ inr r
  | inl k ↦ inl (
      sym s.same_batch
      ∙ k.only (show_nat-injective s.file.sequence n (sym (Submits-cursor t c x s a) ∙ (f ∙ e)))
          s.intent s.is_pending)
]

-- When a token submits the same cursor twice, the second batch is the first one, unless the engine
-- refused the first one as invalid.
pub replay-same :
    (t : Text) (b c : Batch) (p q : Proc) (v w : Log)
    → Reached (submitted t c q ∷ (v ++ (submitted t b p ∷ w)))
    → c.cursor ≡ b.cursor
    → (c ≡ b) ⊎ Answered IsRefusal t b (v ++ (submitted t b p ∷ []))
replay-same t b c p q v w r e =
    let a = Reached-Ahead (submitted t c q ∷ (v ++ (submitted t b p ∷ w))) r in
    let first = suffix-Ahead v (submitted t b p ∷ w) a.1 in
    same_cursor t b c first.0.file.sequence (v ++ (submitted t b p ∷ []))
      (v ++ (submitted t b p ∷ w)) a.0 a.1 (track t b p v w first.0 a.1)
      (Submits-cursor t b w first.0 first.1) e

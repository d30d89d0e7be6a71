-- ===== src/Telemetry/History/InOrder.antt =====
-- Batches go out in the order of their cursors.
use fs_quint.Base.{◌≡◌, subst, ◌≤◌, ◌⊎◌, inl, inr, ℕ, List, [], ◌∷◌, ◌++◌}
use fs_quint.Base.Text.{Text}
use fs_quint.Base.Text.Decimal.{show_nat}
use fs_quint.Host.{Proc}
use fs_quint.Telemetry.Machine.{Batch, Event, submitted, Log, stored}
use fs_quint.Telemetry.Ahead.{Ahead, Submits}
use fs_quint.Telemetry.History.{Reached, Reached-Ahead, suffix-Ahead, IsRefusal, Answered}
use fs_quint.Telemetry.History.Replay.{Tracks, track, Submits-cursor}

-- Both cursors are numbers, and the second is not below the first.
pub record InOrder (b c : Batch) : Type 0 where
  pub first : ℕ
  pub second : ℕ
  pub first_cursor : b.cursor ≡ show_nat first
  pub second_cursor : c.cursor ≡ show_nat second
  pub ordered : first ≤ second

not_below :
    (t : Text) (b c : Batch) (n : ℕ) (v : List Event) (x : Log) (s : Submits t c x)
    → Ahead x
    → Tracks n t b v (stored t x)
    → b.cursor ≡ show_nat n
    → InOrder b c ⊎ Answered IsRefusal t b v
unfolding Tracks
not_below t b c n v x s a h e = elim (subst (Tracks n t b v) s.is_stored h) [
  | inr r ↦ inr r
  | inl k ↦ inl (record {
    first = n;
    second = s.file.sequence;
    first_cursor = e;
    second_cursor = Submits-cursor t c x s a;
    ordered = k.past;
  })
]

-- Of two submissions of one token, the later one never has a smaller cursor, unless the engine
-- refused the earlier one as invalid.
pub submissions-InOrder :
    (t : Text) (b c : Batch) (p q : Proc) (v : List Event) (w : Log)
    → Reached (submitted t c q ∷ (v ++ (submitted t b p ∷ w)))
    → InOrder b c ⊎ Answered IsRefusal t b (v ++ (submitted t b p ∷ []))
submissions-InOrder t b c p q v w r =
    let a = Reached-Ahead (submitted t c q ∷ (v ++ (submitted t b p ∷ w))) r in
    let first = suffix-Ahead v (submitted t b p ∷ w) a.1 in
    not_below t b c first.0.file.sequence (v ++ (submitted t b p ∷ [])) (v ++ (submitted t b p ∷ w))
      a.0 a.1 (track t b p v w first.0 a.1) (Submits-cursor t b w first.0 first.1)

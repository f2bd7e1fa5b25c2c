-- ===== src/Sections/Interleaving.antt =====
-- What the threads of test18.c keep for each other, whatever their order.
use mitosis_tests.Base.{
  ℕ, ◌+◌, ◌-◌, ◌≡◌, refl, ◌||◌, ◌==◌, List, [], ◌∷◌, arith, inl, inr, Bool-cases,
}
use mitosis_tests.Machine.{Replication, Memory, Remembers}
use mitosis_tests.Machine.Pool.{total, turn}
use mitosis_tests.Machine.Pool.Counts.{All}
use mitosis_tests.Sections.Worker.{Worker, Shared, rank, advance}
use mitosis_tests.Sections.Steps.{
  ids, IsFresh, AreDistinct, pending, IsPlaced, IsPlaced-le, IsSound, IsMember, advance-id,
  advance-IsPlaced, advance-ready, advance-other, advance-IsSound, advance-members,
}

module _ {W : Type 0} ⦃sys : Replication W⦄ ⦃mem : Memory W⦄ (shared_mem : ℕ) where
  module _ {byte word : W → ℕ → ℕ} (r : Remembers mem byte word)
      (asked : (option n b : ℕ) (w : W) → byte (sys.prctl option n w).1 b ≡ byte w b) where
    -- A turn of others leaves a thread as sound as it was.
    turn-other :
        (k : ℕ) (l : List Worker) (s : Shared W) (u : Worker)
        → All (IsMember shared_mem r asked s.process.env) l
        → IsFresh u.thread_id (ids l)
        → IsSound shared_mem r asked s.process.env u
        → IsSound shared_mem r asked (turn (advance shared_mem) rank k l s).1.process.env u
    unfolding turn
    turn-other k [] s u members fresh sound = sound
    turn-other k (t ∷ l) s u members fresh sound = elim (Bool-cases (rank t == 0)) [
      | inl ended ↦ rw (turn, ended) (turn-other k l s u members.1 fresh.1 sound)
      | inr running ↦ elim (Bool-cases ((k == 0) || (total rank l == 0))) [
        | inl here ↦
            rw (turn, running, here)
              (advance-other shared_mem r asked t u s members.0.1.1 fresh.0 sound)
        | inr later ↦ rw (turn, running, later) (turn-other (k - 1) l s u members.1 fresh.1 sound)
      ]
    ]

    pub turn-members :
        (k : ℕ) (l : List Worker) (s : Shared W)
        → AreDistinct (ids l)
        → All (IsMember shared_mem r asked s.process.env) l
        → let (l', s') = turn (advance shared_mem) rank k l s in
          All (IsMember shared_mem r asked s'.process.env) l'
    unfolding turn
    turn-members k [] s distinct members = tt
    turn-members k (t ∷ l) s distinct members = elim (Bool-cases (rank t == 0)) [
      | inl ended ↦
          rw (turn, ended)
            (
              (members.0.0, turn-other k l s t members.1 distinct.0 members.0.1),
              turn-members k l s distinct.1 members.1,
            )
      | inr running ↦ elim (Bool-cases ((k == 0) || (total rank l == 0))) [
        | inl here ↦
            let placed : IsPlaced (advance shared_mem t s).0 =
              advance-IsPlaced shared_mem t s members.0.0 in
            let small = IsPlaced-le t members.0.0 in
            rw (turn, running, here)
              (
                (placed, advance-IsSound shared_mem r asked t s small members.0.1),
                advance-members shared_mem r asked t l s members.0.1.1 distinct.0 members.1,
              )
        | inr later ↦
            rw (turn, running, later)
              (
                (members.0.0, turn-other (k - 1) l s t members.1 distinct.0 members.0.1),
                turn-members (k - 1) l s distinct.1 members.1,
              )
      ]
    ]

  pub turn-ids :
      (k : ℕ) (l : List Worker) (s : Shared W)
      → ids (turn (advance shared_mem) rank k l s).0 ≡ ids l
  unfolding turn
  turn-ids k [] s = refl
  turn-ids k (t ∷ l) s = elim (Bool-cases (rank t == 0)) [
    | inl ended ↦ rw (turn, ended, turn-ids k l s) refl
    | inr running ↦ elim (Bool-cases ((k == 0) || (total rank l == 0))) [
      | inl here ↦ rw (turn, running, here, advance-id shared_mem t s) refl
      | inr later ↦ rw (turn, running, later, turn-ids (k - 1) l s) refl
    ]
  ]

  pub turn-ready :
      (k : ℕ) (l : List Worker) (s : Shared W)
      → let (l', s') = turn (advance shared_mem) rank k l s in
        s'.threads_ready + total pending l' ≡ s.threads_ready + total pending l
  unfolding turn
  turn-ready k [] s = refl
  turn-ready k (t ∷ l) s = elim (Bool-cases (rank t == 0)) [
    | inl ended ↦ rw (turn, ended) (omega (arith, turn-ready k l s))
    | inr running ↦ elim (Bool-cases ((k == 0) || (total rank l == 0))) [
      | inl here ↦ rw (turn, running, here) (omega (arith, advance-ready shared_mem t s))
      | inr later ↦ rw (turn, running, later) (omega (arith, turn-ready (k - 1) l s))
    ]
  ]

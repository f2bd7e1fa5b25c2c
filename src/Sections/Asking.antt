-- ===== src/Sections/Asking.antt =====
-- The look of main at the replication while the threads of test18.c run.
use mitosis_tests.Base.{
  ℕ, zero, suc, ◌+◌, ◌-◌, ◌≤◌, ◌≡◌, refl, sym, ◌∙◌, ap, ◌||◌, ◌==◌, true, List, [], ◌∷◌, inl, inr,
  Bool-cases, is_positive, ℤ, arith,
}
use mitosis_tests.Machine.{Process, Event, get, pr_get_pgtable_repl, Replication, Memory, Threads}
use mitosis_tests.Machine.Pool.{total, turn, needed}
use mitosis_tests.Machine.Pool.Runs.{IsKept, crew-joins}
use mitosis_tests.Sections.Worker.{
  Place, writing, verifying, counting, spinning, asking, awaiting, Worker, Shared, rank, rank_of,
  verify, ask, advance,
}
use mitosis_tests.Sections.Program.{spawn, enough, create, work}
use mitosis_tests.Sections.Steps.{advance-Progresses}

-- 1 for the member of the crew that has not yet looked at the replication
abbrev unasked : Worker → ℕ
unasked t = elim t.place [ asking ↦ 1 | _ ↦ 0 ]

-- How many looks are still to come, and what is known of the one that has been.
abbrev Asked : {W : Type 0} → List Event → ℕ → Shared W → Type 0
Asked trace zero s = (m : ℤ) × (s.process.trace ≡ get m ∷ trace) × (s.test_passed ≡ is_positive m)
Asked trace (suc n) s = (s.process.trace ≡ trace) × (s.test_passed ≡ true)

-- Main is a member of the crew once no more members are to come.
abbrev expected : ℕ → ℕ
expected zero = 0
expected (suc left) = 1

ended-asked : (l : List Worker) → total rank l ≡ 0 → total unasked l ≡ 0
unfolding rank_of
ended-asked [] h = refl
ended-asked (t ∷ l) h =
    let here : unasked t ≡ 0 = ground arith in omega (arith, here, ended-asked l (omega arith))

module _ {W : Type 0} ⦃sys : Replication W⦄ ⦃mem : Memory W⦄ (shared_mem : ℕ)
    (trace : List Event) where
  carry :
      (m n : ℕ) (s s' : Shared W)
      → m ≡ n
      → s'.process.trace ≡ s.process.trace
      → s'.test_passed ≡ s.test_passed
      → Asked trace m s
      → Asked trace n s'
  carry zero zero s s' e kept same (m, shown, passed) = (m, kept ∙ shown, same ∙ passed)
  carry zero (suc n) s s' e kept same h = absurd (omega arith)
  carry (suc m) zero s s' e kept same h = absurd (omega arith)
  carry (suc m) (suc n) s s' e kept same (none_yet, passed) = (kept ∙ none_yet, same ∙ passed)

  abbrev Steps : Worker → ℕ → Shared W → Type 0
  Steps t n s =
      (unasked (advance shared_mem t s).0 ≤ unasked t)
      × Asked trace (unasked (advance shared_mem t s).0 + n) (advance shared_mem t s).1

  advance-Asked_at :
      (p : Place) (id errors n : ℕ) (s : Shared W)
      → unasked (record { thread_id = id; place = p; errors = errors }) + n ≤ 1
      → Asked trace (unasked (record { thread_id = id; place = p; errors = errors }) + n) s
      → Steps (record { thread_id = id; place = p; errors = errors }) n s
  unfolding advance verify ask
  advance-Asked_at (writing i zero) id errors n s le h = (omega arith, h)
  advance-Asked_at (writing i (suc m)) id errors n s le h =
      (omega arith, carry (0 + n) (0 + n) s _ refl refl refl h)
  advance-Asked_at (verifying i zero) id errors n s le h = (omega arith, h)
  advance-Asked_at (verifying i (suc m)) id errors n s le h =
      (omega arith, carry (0 + n) (0 + n) s _ refl refl refl h)
  advance-Asked_at counting id errors n s le h =
      (omega arith, carry (0 + n) (0 + n) s _ refl refl refl h)
  advance-Asked_at spinning id errors n s le h = (omega arith, h)
  advance-Asked_at asking id errors zero s le (none_yet, passed) =
      let m = (sys.prctl pr_get_pgtable_repl 0 s.process.env).0 in
      (omega arith, (m, ap (λ l. get m ∷ l) none_yet, rw passed refl))
  advance-Asked_at asking id errors (suc n) s le h = absurd (omega arith)
  advance-Asked_at awaiting id errors n s le h = (omega arith, h)

  turn-Asked :
      (k n : ℕ) (l : List Worker) (s : Shared W)
      → total unasked l + n ≤ 1
      → Asked trace (total unasked l + n) s
      → let (l', s') = turn (advance shared_mem) rank k l s in
        (total unasked l' ≤ total unasked l) × Asked trace (total unasked l' + n) s'
  unfolding turn
  turn-Asked k n [] s le h = (omega arith, h)
  turn-Asked k n (t ∷ l) s le h =
      let a = unasked t in
      let swap : total unasked l + (a + n) ≡ a + total unasked l + n = omega arith in
      let h' =
        carry (a + total unasked l + n) (total unasked l + (a + n)) s s (sym swap) refl refl h in
      elim (Bool-cases (rank t == 0)) [
        | inl ended ↦
            let (less, kept) = turn-Asked k (a + n) l s (omega arith) h' in
            rw (turn, ended) (omega arith, carry _ _ _ _ (omega arith) refl refl kept)
        | inr running ↦ elim (Bool-cases ((k == 0) || (total rank l == 0))) [
          | inl here ↦
              let (less, kept) =
                advance-Asked_at t.place t.thread_id t.errors (total unasked l + n) s (omega arith)
                  (carry _ _ s s (omega arith) refl refl h) in
              rw (turn, running, here) (omega arith, carry _ _ _ _ (omega arith) refl refl kept)
          | inr later ↦
              let (less, kept) = turn-Asked (k - 1) (a + n) l s (omega arith) h' in
              rw (turn, running, later) (omega arith, carry _ _ _ _ (omega arith) refl refl kept)
        ]
      ]

module _ {W : Type 0} ⦃sys : Replication W⦄ ⦃mem : Memory W⦄ ⦃threads : Threads W⦄ (shared_mem : ℕ)
    (p : Process W) where
  -- What holds while `left` members of the crew are still to come.
  abbrev Invariant : ℕ → List Worker → Shared W → Type 0
  Invariant left l s =
      (total unasked l + expected left ≤ 1) × Asked p.trace (total unasked l + expected left) s

  turn-Invariant : (left : ℕ) → IsKept (advance shared_mem) rank (Invariant left)
  turn-Invariant left k l s (le, h) =
      let (less, kept) = turn-Asked shared_mem p.trace k (expected left) l s le h in
      (omega arith, kept)

  create-trace : (s : Shared W) → (create s).1.process.trace ≡ s.process.trace
  unfolding create
  create-trace s = ground arith

  create-passed : (s : Shared W) → (create s).1.test_passed ≡ s.test_passed
  unfolding create
  create-passed s = ground arith

  spawn-Invariant :
      (left : ℕ) (l : List Worker) (s : Shared W)
      → Invariant (suc left) l s
      → Invariant left (spawn left ∷ l) (create s).1
  unfolding spawn
  spawn-Invariant zero l s (le, h) = (
    omega arith,
    carry shared_mem p.trace _ _ s _ (omega arith) (create-trace s) (create-passed s) h,
  )
  spawn-Invariant (suc m) l s (le, h) = (
    omega arith,
    carry shared_mem p.trace _ _ s _ (omega arith) (create-trace s) (create-passed s) h,
  )

  few : needed rank spawn 5 + 0 ≤ enough
  unfolding spawn rank_of
  few = omega arith

  -- Where every thread is created, main looks at the replication once while they run, and `test_passed`
  -- says whether the answer is positive.
  pub work-asks :
      (schedule : List ℕ)
      → let c = work shared_mem schedule p in
        c.created ≡ true
        → (m : ℤ) × (c.shared.process.trace ≡ get m ∷ p.trace)
          × (c.shared.test_passed ≡ is_positive m)
  work-asks schedule made =
      let c = work shared_mem schedule p in
      let (ended, (le, h)) =
        crew-joins (advance shared_mem) rank create spawn (advance-Progresses shared_mem) Invariant
          turn-Invariant (λ left l s h good. spawn-Invariant left l s h) enough schedule 5 []
          (record { process = p; threads_ready = 0; i = 0; test_passed = true }) few
          (omega arith, (refl, refl)) made in
      carry shared_mem p.trace (total unasked c.threads + 0) 0 c.shared c.shared
        (omega (arith, ended-asked c.threads ended)) refl refl h

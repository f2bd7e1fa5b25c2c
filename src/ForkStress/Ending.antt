-- ===== src/ForkStress/Ending.antt =====
-- test35.c comes to an end, in whichever order its threads run.
use mitosis_tests.Base.{
  ℕ, zero, suc, ◌+◌, ◌*◌, ◌-◌, ◌≤◌, ◌<◌, ◌≡◌, ◌≢◌, refl, true, false, not, ◌||◌, List, [], ◌∷◌,
  ◌==◌, ℤ, inl, inr, Bool-cases, arith,
}
use mitosis_tests.Machine.{Process, Replication, Memory, Tasks, Reaping, Threads, Affinity}
use mitosis_tests.Machine.Pool.{head, tail, length, total}
use mitosis_tests.Machine.Pool.Turns.{total-le, turn-falls, turn-number, turn-keeps}
use mitosis_tests.ForkStress.Calls.{check_replication}
use mitosis_tests.ForkStress.Worker.{Worker, Shared, rank, fault_thread, migration_thread, advance}
use mitosis_tests.ForkStress.Rounds.{
  MainPlace, creating, warming, forking, resting, checking, cooling, disabling, verifying, stopping,
  joining, waiting, over, System, create_thread, fork_child, check_parent, wait_child,
}
use mitosis_tests.ForkStress.Program.{is_over, is_joining, main_step, step, run, init, enough, last}

-- the steps of `main` left at most, with 6 for a thread that it has to create
abbrev place_rank : MainPlace → ℕ
place_rank p = elim p [
  | over n ↦ 0
  | waiting i left ↦ left + 1
  | joining ↦ 17
  | stopping ↦ 18
  | verifying ↦ 19
  | disabling ↦ 20
  | cooling ↦ 21
  | forking i left ↦ 22 + 3 * left
  | checking i left ↦ 23 + 3 * left
  | resting i left ↦ 24 + 3 * left
  | warming ↦ 68
  | creating left ↦ 69 + 6 * left
]

abbrev bound : Worker → ℕ
bound t = 5

rank-le : (t : Worker) → rank t ≤ bound t
rank-le t = ground arith

module _ {W : Type 0} ⦃sys : Replication W⦄ ⦃mem : Memory W⦄ ⦃tasks : Tasks W⦄ ⦃threads : Threads W⦄
    ⦃cpus : Affinity W⦄ where
  advance-rank :
      (s : Shared W)
      → s.keep_running ≡ false
      → (t : Worker) → rank t ≢ 0
      → rank (advance t s).0 < rank t
  unfolding advance fault_thread migration_thread check_replication
  advance-rank s off t live = ground arith

  advance-keep_running : (s : Shared W) (t : Worker) → (advance t s).1.keep_running ≡ s.keep_running
  unfolding advance fault_thread migration_thread check_replication
  advance-keep_running s t = ground arith

  module _ ⦃reaping : Reaping W⦄ (num_nodes : ℕ) where
    main_step-falls :
        (f : Worker → ℕ)
        → ((t : Worker) → f t ≤ bound t)
        → (s : System W) → is_over s.place ≡ false
        → place_rank (main_step num_nodes s).place + total f (main_step num_nodes s).threads
          < place_rank s.place + total f s.threads
    unfolding main_step create_thread fork_child check_parent wait_child check_replication
    main_step-falls f le s going = grind (arith, le)

    -- The flag is clear at the join.
    abbrev IsStopped : System W → Type 0
    IsStopped s = elim s.place [ joining ↦ s.shared.keep_running ≡ false | _ ↦ Unit ]

    main_step-IsStopped : (s : System W) → IsStopped s → IsStopped (main_step num_nodes s)
    unfolding main_step create_thread fork_child check_parent wait_child check_replication
    main_step-IsStopped s h = ground arith

    -- What is left to do, where `f` is the share of a thread.
    abbrev left_with : (Worker → ℕ) → System W → ℕ
    left_with f s = place_rank s.place + total f s.threads

    step-IsStopped : (k : ℕ) (s : System W) → IsStopped s → IsStopped (step num_nodes k s)
    unfolding step
    step-IsStopped k s h = ground (
      arith,
      main_step-IsStopped s h,
      turn-keeps advance rank s.shared (λ s. s.keep_running) (advance-keep_running s.shared) (k - 1)
          s.threads,
    )

    -- No step makes the bound larger.
    step-le : (k : ℕ) (s : System W) → left_with bound (step num_nodes k s) ≤ left_with bound s
    unfolding step
    step-le k s = ground (
      arith,
      main_step-falls bound (λ t. omega arith) s,
      turn-number advance rank s.shared bound (λ t. refl) (k - 1) s.threads,
    )

    -- Without a schedule, every step brings the system nearer to its end.
    step-falls :
        (s : System W)
        → IsStopped s
        → is_over s.place ≡ false
        → left_with rank (step num_nodes 0 s) < left_with rank s
    unfolding step
    step-falls s h going =
        elim (Bool-cases ((total rank s.threads == 0) || not (is_joining s.place))) [
          | inl moves ↦ ground (arith, moves, main_step-falls rank rank-le s going)
          | inr waits ↦
              let off : s.shared.keep_running ≡ false = ground arith in
              ground (
                arith,
                waits,
                turn-falls advance rank s.shared (advance-rank s.shared off) 0 s.threads,
              )
        ]

    over-run :
        (f : ℕ) (ks : List ℕ) (s : System W)
        → is_over s.place ≡ true
        → is_over (run num_nodes f ks s).place ≡ true
    unfolding run step
    over-run zero ks s h = h
    over-run (suc f) ks s h = over-run f (tail ks) (step num_nodes (head ks) s) (ground arith)

    run-ends :
        (f : ℕ) (s : System W)
        → IsStopped s
        → left_with rank s ≤ f
        → is_over (run num_nodes f [] s).place ≡ true
    unfolding run
    run-ends zero s h le = ground arith
    run-ends (suc f) s h le = elim (Bool-cases (is_over s.place)) [
      | inl done ↦ over-run (suc f) [] s done
      | inr going ↦
          run-ends f (step num_nodes 0 s) (step-IsStopped 0 s h)
            (omega (arith, step-falls s h going))
    ]

    schedule-ends :
        (n : ℕ) (ks : List ℕ) (s : System W)
        → IsStopped s
        → length ks + left_with bound s ≤ n
        → is_over (run num_nodes n ks s).place ≡ true
    unfolding run
    schedule-ends n [] s h le =
        run-ends n s h (omega (arith, total-le rank bound rank-le s.threads))
    schedule-ends zero (k ∷ ks) s h le = absurd (omega arith)
    schedule-ends (suc n) (k ∷ ks) s h le =
        schedule-ends n ks (step num_nodes k s) (step-IsStopped k s h) (omega (arith, step-le k s))

    -- Whatever the system answers, and whichever threads run first, test35.c ends: after the schedule,
    -- `enough` steps bring it from the creation of its threads through the forks, the join and the waits to
    -- its return, also where malloc refuses every request of the threads.
    pub stress-ends :
        (schedule : List ℕ) (junk : ℕ → ℤ) (p : Process W)
        → is_over (last num_nodes schedule junk p).place ≡ true
    stress-ends schedule junk p =
        schedule-ends (length schedule + enough) schedule (init junk p) tt (omega arith)

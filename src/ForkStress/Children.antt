-- ===== src/ForkStress/Children.antt =====
-- What the verdict of test35.c says of its children.
use mitosis_tests.Base.{
  ℕ, zero, suc, ◌+◌, ◌%◌, ◌≤◌, ◌<◌, ◌≡◌, refl, true, false, not, List, ◌==◌, ℤ, ◌⊎◌, inl, inr,
  Bool-cases, Option-cases, arith, none, some, pos, is_positive, is_nonzero,
}
use mitosis_tests.Machine.{
  Process, status, Replication, Memory, Tasks, Reaping, exited, is_failure, start, status_of,
  Threads, Affinity,
}
use mitosis_tests.Machine.Pool.{head, tail, length, total}
use mitosis_tests.ForkStress.Calls.{child_process, check_replication}
use mitosis_tests.ForkStress.Worker.{rank}
use mitosis_tests.ForkStress.Rounds.{
  Slot, put, creating, warming, forking, resting, checking, cooling, disabling, verifying, stopping,
  joining, waiting, over, System, verdict, create_thread, fork_child, check_parent, wait_child,
}
use mitosis_tests.ForkStress.Slots.{num, is_own, is_fine, num-suc, num-le, num-put, num-full}
use mitosis_tests.ForkStress.Program.{is_joining, main_step, step, run, init, enough, last, stress}
use mitosis_tests.ForkStress.Ending.{stress-ends}

module _ {W : Type 0} where
  -- All children were created, and of the first `i` those that the parent counts as good are fine.
  abbrev Counted : ℕ → System W → Type 0
  Counted i s =
      (num is_own 15 s.child_pids ≡ 15)
      × (s.children_ok ≤ num is_fine i s.child_pids)
      × (s.children_ok + s.children_failed ≡ i)

  abbrev Forked : ℕ → System W → Type 0
  Forked i s =
      (s.successful_forks ≤ num is_own i s.child_pids)
      × (s.children_ok ≡ 0)
      × (s.children_failed ≡ 0)

  -- the loop of the forks is over
  abbrev After : System W → Type 0
  After s = (s.successful_forks < 15) ⊎ Counted 0 s

  abbrev Passed : System W → Type 0
  Passed s =
      (num is_fine 15 s.child_pids ≡ 15)
      × (s.children_ok ≡ 15)
      × (total rank s.threads ≡ 0)
      × (s.shared.thread_failures ≡ 0)

  abbrev Inv : System W → Type 0
  Inv s = elim s.place [
    | creating left ↦ Forked 0 s
    | warming ↦ Forked 0 s
    | forking i left ↦ (i + left ≡ 15) × Forked i s
    | resting i left ↦ (i + left + 1 ≡ 15) × Forked (i + 1) s
    | checking i left ↦ (i + left + 1 ≡ 15) × (i % 5 ≡ 0) × Forked (i + 1) s
    | cooling ↦ After s
    | disabling ↦ After s
    | verifying ↦ After s
    | stopping ↦ After s
    | joining ↦ After s
    | waiting i left ↦
        (i + left ≡ 15) × (total rank s.threads ≡ 0) × ((s.successful_forks < 15) ⊎ Counted i s)
    | over n ↦ (0 < n) ⊎ Passed s
  ]

  module _ ⦃sys : Replication W⦄ ⦃mem : Memory W⦄ ⦃tasks : Tasks W⦄ where
    fork_child-Inv :
        ((w : W) → is_nonzero (tasks.fork w).pid ≡ true)
        → (i left : ℕ) (s : System W) → i + suc left ≡ 15
        → Forked i s
        → Inv (fork_child i left s)
    unfolding fork_child
    fork_child-Inv pids i left s e h =
        let f = tasks.fork s.shared.process.env in
        let c = child_process (start f.child) in
        let forked : Slot W = record { pid = f.pid; child = some (status_of c.0, c.1.env) } in
        let missed : Slot W = record { pid = pos 0; child = none } in
        ground (
          arith,
          pids s.shared.process.env,
          num-put is_own i i forked s.child_pids (omega arith),
          num-suc is_own i (put i forked s.child_pids),
          num-put is_own i i missed s.child_pids (omega arith),
          num-suc is_own i (put i missed s.child_pids),
        )

  module _ ⦃reaping : Reaping W⦄
      (reports : (pid : ℤ) (n : ℕ) (v w : W)
        → (reaping.reap pid (some (n, v)) w).status ≡ exited n) where
    is_own-reap :
        (slot : Slot W) (w : W)
        → is_own slot ≡ true
        → (is_positive slot.pid ≡ true)
          × (is_failure (reaping.reap slot.pid slot.child w).status ≡ not (is_fine slot))
    is_own-reap slot w own = elim (Option-cases slot.child) [
      | inl no_child ↦ ground arith
      | inr (c, e) ↦ rw e (ground (arith, e, reports slot.pid c.0 c.1 w))
    ]

    wait_child-Inv :
        (i left : ℕ) (s : System W)
        → i + suc left ≡ 15
        → total rank s.threads ≡ 0
        → (s.successful_forks < 15) ⊎ Counted i s
        → Inv (wait_child i left s)
    unfolding wait_child
    wait_child-Inv i left s e none_left (inl few) = ground arith
    wait_child-Inv i left s e none_left (inr h) =
        let own = num-full is_own 15 i s.child_pids h.0 (omega arith) in
        let (awaited, told) = is_own-reap (s.child_pids i) s.shared.process.env own in
        elim (Bool-cases (is_fine (s.child_pids i))) [
          | inl fine ↦ ground (arith, awaited, told, fine, num-suc is_fine i s.child_pids)
          | inr bad ↦ ground (arith, awaited, told, bad, num-suc is_fine i s.child_pids)
        ]

    module _ ⦃sys : Replication W⦄ ⦃mem : Memory W⦄ ⦃tasks : Tasks W⦄ ⦃threads : Threads W⦄
        ⦃cpus : Affinity W⦄ (pids : (w : W) → is_nonzero (tasks.fork w).pid ≡ true)
        (num_nodes : ℕ) where
      verdict-Inv :
          (s : System W)
          → total rank s.threads ≡ 0
          → (s.successful_forks < 15) ⊎ Counted 15 s
          → (0 < verdict s) ⊎ Passed s
      unfolding verdict
      verdict-Inv s joined h = ground (arith, num-le is_fine 15 s.child_pids)

      main_step-Inv :
          (s : System W)
          → (is_joining s.place ≡ false) ⊎ (total rank s.threads ≡ 0)
          → Inv s
          → Inv (main_step num_nodes s)
      unfolding main_step create_thread check_parent check_replication
      main_step-Inv s joined h =
          grind (arith, fork_child-Inv pids, wait_child-Inv, verdict-Inv, num-le)

      step-Inv : (k : ℕ) (s : System W) → Inv s → Inv (step num_nodes k s)
      unfolding step
      step-Inv k s h = elim (Bool-cases (is_joining s.place)) [
        | inl join ↦ elim (Bool-cases (total rank s.threads == 0)) [
          | inl joined ↦ ground (arith, join, joined, main_step-Inv s)
          | inr live ↦ ground (arith, join, live)
        ]
        | inr going ↦ ground (arith, main_step-Inv s)
      ]

      run-Inv : (f : ℕ) (ks : List ℕ) (s : System W) → Inv s → Inv (run num_nodes f ks s)
      unfolding run
      run-Inv zero ks s h = h
      run-Inv (suc f) ks s h =
          run-Inv f (tail ks) (step num_nodes (head ks) s) (step-Inv (head ks) s h)

      -- Where fork() answers 0 to no parent and waitpid() reports the status with which a child has ended,
      -- whatever the rest of the system answers and in whichever order the threads run: if test35.c passes,
      -- all fifteen entries of `child_pids` are children that ended with status 0, the parent has counted
      -- each of them, every thread has ended, and none has failed.
      pub stress-passes_only :
          (schedule : List ℕ) (junk : ℕ → ℤ) (p : Process W)
          → status (stress num_nodes schedule junk) p ≡ 0
          → let s = last num_nodes schedule junk p in
            (num is_fine 15 s.child_pids ≡ 15)
            × (s.children_ok ≡ 15)
            × (total rank s.threads ≡ 0)
            × (s.shared.thread_failures ≡ 0)
      unfolding stress
      stress-passes_only schedule junk p passed =
          let f = length schedule + enough in
          let ends = stress-ends num_nodes schedule junk p in
          let h = run-Inv f schedule (init junk p) (omega arith, refl, refl) in
          ground (arith, ends, h)

-- ===== src/ForkStress/Program.antt =====
-- `main` of test35.c: the part before its threads as a program, and the rest as steps of a system in which
-- the threads run.
use mitosis_tests.Base.{
  ℕ, zero, suc, ◌+◌, ◌-◌, ◌%◌, Bool, true, false, not, ◌&&◌, ◌||◌, none, some, List, [], ◌==◌, ltb,
  is_neg, is_positive, ℤ,
}
use mitosis_tests.Machine.{
  Process, ok, ended, Program, exit, quietly, ◌>>=◌, ◌>>◌, when, set_repl, Replication, Memory,
  Tasks, Reaping, Threads, Affinity, Nodes,
}
use mitosis_tests.Machine.Pool.{head, tail, length, total, turn}
use mitosis_tests.ForkStress.Calls.{check_replication}
use mitosis_tests.ForkStress.Worker.{rank, advance}
use mitosis_tests.ForkStress.Rounds.{
  num_rapid_forks, num_fault_threads, num_migration_threads, MainPlace, creating, warming, forking,
  resting, checking, cooling, disabling, verifying, stopping, joining, waiting, over, System,
  at_place, verdict, create_thread, fork_child, check_parent, wait_child,
}

abbrev pub is_over : MainPlace → Bool
is_over (over n) = true
is_over _ = false

abbrev pub is_joining : MainPlace → Bool
is_joining joining = true
is_joining _ = false

-- as many steps as are left at most when the schedule has run out
abbrev pub enough : ℕ
enough = 117

module _ {W : Type 0} where
  module _ ⦃sys : Replication W⦄ ⦃mem : Memory W⦄ ⦃tasks : Tasks W⦄ ⦃reaping : Reaping W⦄
      ⦃threads : Threads W⦄ ⦃cpus : Affinity W⦄ where
    abbrev sleep : ℕ → MainPlace → System W → System W
    sleep n place s =
        let p = s.shared.process in at_place place (record p { env = tasks.usleep n p.env }) s

    -- The next step of `main`; at the join it goes on only when the threads have ended.
    unfoldable pub main_step : (num_nodes : ℕ) → System W → System W
    main_step num_nodes s =
        let p = s.shared.process in
        elim s.place [
          | creating zero ↦ record s { place = warming }
          | creating (suc left) ↦ create_thread num_nodes left s
          | warming ↦ sleep 100000 (forking 0 num_rapid_forks) s
          | forking i zero ↦ record s { place = cooling }
          | forking i (suc left) ↦ fork_child i left s
          | resting i left ↦ elim (i % 5 == 0) [
            | true ↦ sleep 10000 (checking i left) s
            | false ↦ sleep 10000 (forking (i + 1) left) s
          ]
          | checking i left ↦ check_parent i left s
          | cooling ↦ sleep 200000 disabling s
          | disabling ↦
              let (ret, p') = set_repl 0 p in
              elim ret [
                | ok a ↦ elim (is_neg a) [
                  | true ↦ at_place stopping p' s
                  | false ↦ at_place verifying p' s
                ]
                | ended n ↦ at_place (over n) p' s
              ]
          | verifying ↦ at_place stopping (check_replication (some 0) p).1 s
          | stopping ↦ record s {
            place = joining;
            shared = record s.shared { keep_running = false };
          }
          | joining ↦ record s { place = waiting 0 num_rapid_forks }
          | waiting i zero ↦ record s { place = over (verdict s) }
          | waiting i (suc left) ↦ wait_child i left s
          | over n ↦ s
        ]

    -- A step of `main` at the pick 0 and where no thread is left, and of a thread at the other picks and where
    -- `main` waits for them. Nothing runs after `main` has returned.
    unfoldable pub step : (num_nodes k : ℕ) → System W → System W
    step num_nodes k s =
        let (l, shared) = turn advance rank (k - 1) s.threads s.shared in
        elim (is_over s.place) [
          | true ↦ s
          | false ↦ elim ((total rank s.threads == 0) || ((k == 0) && not (is_joining s.place))) [
            | true ↦ main_step num_nodes s
            | false ↦ record s { threads = l; shared = shared }
          ]
        ]

    unfoldable pub run : (num_nodes fuel : ℕ) → List ℕ → System W → System W
    run num_nodes zero ks s = s
    run num_nodes (suc f) ks s = run num_nodes f (tail ks) (step num_nodes (head ks) s)

    -- Before the first thread is created; `child_pids` holds what was on the stack.
    abbrev pub init : (ℕ → ℤ) → Process W → System W
    init junk p = record {
      shared = record {
        process = p;
        keep_running = true;
        thread_failures = 0;
        migrations_completed = 0;
        page_faults_completed = 0;
      };
      threads = [];
      place = creating (num_fault_threads + num_migration_threads);
      child_pids = λ k. record { pid = junk k; child = none };
      successful_forks = 0;
      failed_forks = 0;
      children_ok = 0;
      children_failed = 0;
    }

    abbrev pub last : (num_nodes : ℕ) → List ℕ → (ℕ → ℤ) → Process W → System W
    last num_nodes schedule junk p = run num_nodes (length schedule + enough) schedule (init junk p)

    -- from the creation of the threads on
    unfoldable pub stress : (num_nodes : ℕ) → List ℕ → (ℕ → ℤ) → Program W (Unit {0})
    stress num_nodes schedule junk p =
        let s = last num_nodes schedule junk p in
        (elim s.place [ over n ↦ ended n | _ ↦ ok tt ], s.shared.process)

    unfoldable pub main : ⦃nodes : Nodes W⦄ → List ℕ → (ℕ → ℤ) → Program W (Unit {0})
    main ⦃nodes⦄ schedule junk = do
      num_nodes ← quietly (λ w. (nodes.numa_num_configured_nodes w, w))
      when (ltb num_nodes 2) (exit 1)
      ret ← set_repl 1
      when (is_neg ret) (exit 1)
      status ← check_replication none
      when (not (is_positive status)) (exit 1)
      stress num_nodes schedule junk

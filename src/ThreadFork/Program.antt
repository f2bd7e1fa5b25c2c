-- ===== src/ThreadFork/Program.antt =====
-- `test_child_process` and `main` of test34.c.
use mitosis_tests.Base.{
  ℕ, ◌+◌, ◌-◌, ◌*◌, ◌%◌, Bool, not, ◌&&◌, List, [], ltb, ◌==◌, is_neg, is_nonzero, is_positive, ℤ,
}
use mitosis_tests.Machine.{
  Child, Process, Program, ok, exit, quietly, ◌>>=◌, ◌>>◌, when, set_repl, Replication, Memory,
  fork, waitpid, is_failure, Tasks, Threads, Nodes,
}
use mitosis_tests.Machine.Pool.{crew}
use mitosis_tests.ThreadFork.Worker.{
  Worker, starting, Shared, rank, iterations, check_replication, advance,
}

abbrev pub num_threads : ℕ
num_threads = 4

-- `results`
pub record Results : Type 0 where
  pub parent_threads_ok : ℕ
  pub failures : ℕ

-- as many steps as all threads can make
abbrev pub enough : ℕ
enough = num_threads * (iterations + 6)

-- The thread that is created when `left` more are to come after it, in phase 0 and 1, and the child's.
unfoldable pub worker : (num_nodes phase left : ℕ) → Worker
worker num_nodes phase left =
    let i = num_threads - 1 - left in
    record {
      job = record { thread_id = i + 100 * phase; target_node = i % num_nodes; phase = phase };
      place = starting;
    }

unfoldable pub child_worker : ℕ → Worker
child_worker left = record {
  job = record { thread_id = 99; target_node = 1; phase = 2 };
  place = starting;
}

module _ {W : Type 0} ⦃sys : Replication W⦄ ⦃mem : Memory W⦄ ⦃threads : Threads W⦄ where
  abbrev pub create : Shared W → Bool × Shared W
  create s =
      let (good, w) = threads.pthread_create s.process.env in
      (good, record s { process = record s.process { env = w } })

  -- The loops that create and join `n` threads.
  abbrev pub create_and_join :
      (ℕ → Worker)
      → ℕ
      → List ℕ
      → Results
      → Process W
      → record { created : Bool; threads : List Worker; shared : Shared W }
  create_and_join spawn n schedule r p =
      crew advance rank create spawn enough schedule n []
        (record { process = p; parent_threads_ok = r.parent_threads_ok; failures = r.failures })

  -- Whether each thread was created, and `results` after them.
  unfoldable pub run_threads : (ℕ → Worker) → ℕ → List ℕ → Results → Program W (Bool × Results)
  run_threads spawn n schedule r p =
      let c = create_and_join spawn n schedule r p in
      let r' : Results = record {
        parent_threads_ok = c.shared.parent_threads_ok;
        failures = c.shared.failures;
      } in
      (ok (c.created, r'), c.shared.process)

  abbrev pub checked : Program W ℤ
  checked p = let (a, p') = check_replication p in (ok a, p')

  -- `exit(child_result == 0 ? 0 : 1)`; the child has a copy of `results`, which nobody reads
  unfoldable pub child : List ℕ → Results → Program W (Unit {0})
  child schedule r = do
    repl_status ← checked
    when (is_nonzero repl_status) (exit 1)
    ret ← set_repl 1
    when (is_neg ret) (exit 1)
    repl_status ← checked
    when (not (is_positive repl_status)) (exit 1)
    joined ← run_threads child_worker 1 schedule r
    when (not joined.0) (exit 1)
    exit 0

  module _ ⦃tasks : Tasks W⦄ where
    -- from "Verify parent replication still enabled" on, given the child and the threads' order
    unfoldable pub after_fork : (num_nodes : ℕ) → List ℕ → Results → Child W → Program W (Unit {0})
    after_fork num_nodes schedule r started = do
      repl_status ← checked
      when (not (is_positive repl_status)) (exit 1)
      joined ← run_threads (worker num_nodes 1) num_threads schedule r
      when (not joined.0) (exit 1)
      child_status ← waitpid started
      let results = joined.1
      when
          ((results.failures == 0)
            && (results.parent_threads_ok == num_threads)
            && not (is_failure child_status))
          (exit 0)
      exit 1

    -- The three schedules order the threads before the fork, those of the child and those after it.
    unfoldable pub main :
        ⦃nodes : Nodes W⦄ → (before in_child after : List ℕ) → Program W (Unit {0})
    main ⦃nodes⦄ before in_child after = do
      num_nodes ← quietly (λ w. (nodes.numa_num_configured_nodes w, w))
      when (ltb num_nodes 2) (exit 1)
      ret ← set_repl 1
      when (is_neg ret) (exit 1)
      repl_status ← checked
      when (not (is_positive repl_status)) (exit 1)
      joined ←
          run_threads (worker num_nodes 0) num_threads before
            (record { parent_threads_ok = 0; failures = 0 })
      when (not joined.0) (exit 1)
      when (ltb 0 joined.1.failures) (exit 1)
      started ← fork (child in_child joined.1)
      when (is_neg started.pid) (exit 1)
      after_fork num_nodes after joined.1 started

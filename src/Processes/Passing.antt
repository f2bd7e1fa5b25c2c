-- ===== src/Processes/Passing.antt =====
-- test21.c passes on a system that does what it documents.
use mitosis_tests.Base.{
  ℕ, zero, suc, ◌+◌, ◌≡◌, refl, true, false, List, [], ◌∷◌, ◌++◌, ℤ, pos, negsuc, some, arith,
  is_neg,
}
use mitosis_tests.Machine.{
  Process, Child, Outcome, ok, ended, status, status_of, start, exited, Replication, Memory, Tasks,
  Reaping, Remembers, pr_set_pgtable_repl,
}
use mitosis_tests.Processes.{
  num_processes, memory_size, differs, worker_process, wait_workers, fork_workers, main,
}
use mitosis_tests.Processes.Workers.{worker-passes}
use mitosis_tests.Processes.Verdict.{all_zero}

differs-same : (a : ℤ) → differs a a ≡ false
differs-same (pos n) = ground arith
differs-same (negsuc n) = ground arith

module _ {W : Type 0} where
  all_zero-append :
      (l : List (Child W)) (c : Child W)
      → c.exit_status ≡ 0
      → all_zero l ≡ true
      → all_zero (l ++ (c ∷ [])) ≡ true
  all_zero-append [] c e h = ground arith
  all_zero-append (d ∷ l) c e h = ground (arith, all_zero-append l c e)

  abbrev IsReady : Outcome (List (Child W)) → Type 0
  IsReady (ok l) = all_zero l ≡ true
  IsReady (ended n) = ⊥

  module _ ⦃tasks : Tasks W⦄ ⦃reaping : Reaping W⦄
      (results : (pid : ℤ) (n : ℕ) (v w : W) → (reaping.reap pid (some (n, v)) w).result ≡ pid)
      (reports : (pid : ℤ) (n : ℕ) (v w : W)
        → (reaping.reap pid (some (n, v)) w).status ≡ exited n) where
    wait_workers-true :
        (l : List (Child W)) (s : Process W) → all_zero l ≡ true → (wait_workers l s).0 ≡ ok true
    unfolding wait_workers
    wait_workers-true [] s h = refl
    wait_workers-true (c ∷ l) s h =
        let w = (reaping.reap c.pid (some (c.exit_status, c.final.env)) s.env).world in
        ground (
          arith,
          results c.pid c.exit_status c.final.env s.env,
          reports c.pid c.exit_status c.final.env s.env,
          differs-same c.pid,
          wait_workers-true l (record s { env = w }),
        )

    module _ ⦃mem : Memory W⦄ ⦃sys : Replication W⦄
        (forks : (w : W) → is_neg (tasks.fork w).pid ≡ false) where
      fork_workers-IsReady :
          ((id : ℕ) (w : W) → status (worker_process id) (start w) ≡ 0)
          → (i n : ℕ) (l : List (Child W)) (s : Process W) → all_zero l ≡ true
          → IsReady (fork_workers i n l s).0
      unfolding fork_workers
      fork_workers-IsReady good i zero l s h = h
      fork_workers-IsReady good i (suc n) l s h =
          let f = tasks.fork s.env in
          let c = worker_process i (start f.child) in
          let started : Child W = record {
            pid = f.pid;
            exit_status = status_of c.0;
            final = c.1;
          } in
          let rested : Process W = record s { env = tasks.usleep 10000 f.parent } in
          ground (
            arith,
            forks s.env,
            fork_workers-IsReady good (i + 1) n (l ++ (started ∷ [])) rested
                (all_zero-append l started (good i f.child) h),
          )

      -- On memory that keeps what is written and that prctl and sleeping keep, where malloc gives memory,
      -- replication can be switched on and off, processes can be forked and waitpid() answers the process
      -- waited for and the status with which it ended, test21.c passes.
      pub processes-passes :
          {byte word : W → ℕ → ℕ} (r : Remembers mem byte word)
          → (sleeps : (n b : ℕ) (w : W) → byte (tasks.usleep n w) b ≡ byte w b)
          → (keeps : (option n b : ℕ) (w : W) → byte (sys.prctl option n w).1 b ≡ byte w b)
          → (grants : (n : ℕ) (w : W) → (sys.prctl pr_set_pgtable_repl n w).0 ≡ pos 0)
          → (gives : (w : W) → (a : ℕ) × ((mem.malloc memory_size w).0 ≡ some a)) → (w : W)
          → status main (start w) ≡ 0
      unfolding main
      processes-passes r sleeps keeps grants gives w =
          let ready =
            fork_workers-IsReady (worker-passes r sleeps keeps grants gives) 0 num_processes []
              (start w) refl in
          grind (arith, ready, wait_workers-true)

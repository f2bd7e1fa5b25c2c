-- ===== src/ThreadFork/ChildVerdict.antt =====
-- What the verdict of the child of test34.c means.
use mitosis_tests.Base.{ℕ, [], ◌∷◌, ◌≡◌, true, false, List, arith, pos, is_neg}
use mitosis_tests.Machine.{
  set, get, status, Process, start, Replication, Memory, Threads, pr_set_pgtable_repl,
  pr_get_pgtable_repl,
}
use mitosis_tests.Machine.Pool.Runs.{crew-created}
use mitosis_tests.ThreadFork.Worker.{Shared, rank, advance, check_replication}
use mitosis_tests.ThreadFork.Program.{create, enough, Results, run_threads, child_worker, child}
use mitosis_tests.ThreadFork.Verdict.{is_shown}

module _ {W : Type 0} ⦃sys : Replication W⦄ ⦃mem : Memory W⦄ ⦃threads : Threads W⦄ where
  -- Whatever its thread meets, the child of test34.c passes, if its first GET answered 0, replication
  -- could be switched on, its second GET was no error and positive, and threads can be created: that the
  -- thread could not be placed on its node, or found replication off, is not looked at.
  child-ignores_thread :
      ((w : W) → (threads.pthread_create w).0 ≡ true)
      → (schedule : List ℕ) (r : Results) (w : W)
      → let w1 = (sys.prctl pr_get_pgtable_repl 0 w).1 in
        let (on, w2) = sys.prctl pr_set_pgtable_repl 1 w1 in
        (sys.prctl pr_get_pgtable_repl 0 w).0 ≡ pos 0
        → is_neg on ≡ false
        → is_shown (sys.prctl pr_get_pgtable_repl 0 w2).0 ≡ true
        → status (child schedule r) (start w) ≡ 0
  unfolding child run_threads check_replication
  child-ignores_thread creates schedule r w fresh on shown =
      let (a1, w1) = sys.prctl pr_get_pgtable_repl 0 w in
      let (a2, w2) = sys.prctl pr_set_pgtable_repl 1 w1 in
      let (a3, w3) = sys.prctl pr_get_pgtable_repl 0 w2 in
      let p : Process W = record { env = w3; trace = get a3 ∷ set 1 a2 ∷ get a1 ∷ [] } in
      let s : Shared W = record {
        process = p;
        parent_threads_ok = r.parent_threads_ok;
        failures = r.failures;
      } in
      let made =
        crew-created advance rank create child_worker (λ s. creates s.process.env) enough schedule 1
          [] s in
      ground (arith, made)

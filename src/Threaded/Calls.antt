-- ===== src/Threaded/Calls.antt =====
-- The calls of `main` of test3.c. The thread itself makes none but usleep().
use mitosis_tests.Base.{ℕ, zero, suc, not, is_neg, is_nonzero}
use mitosis_tests.Machine.{
  Program, exit, quietly, ◌>>=◌, ◌>>◌, when, set_repl, get_repl, disable, Replication, effect,
  Tasks, Threads,
}

module _ {W : Type 0} ⦃sys : Replication W⦄ ⦃tasks : Tasks W⦄ ⦃threads : Threads W⦄ where
  -- `n` rounds of `while (!thread_running) usleep(1000);`
  unfoldable pub await_thread : ℕ → W → W
  await_thread zero w = w
  await_thread (suc n) w = await_thread n (tasks.usleep 1000 w)

  -- up to the creation of the thread
  unfoldable pub alone : Program W (Unit {0})
  alone = do
    ret ← set_repl 1
    when (is_neg ret) (exit 1)
    ret ← get_repl
    when (not (is_nonzero ret)) (exit 1)
    ret ← set_repl 0
    when (is_neg ret) (exit 1)
    created ← quietly threads.pthread_create
    when (not created) (exit 1)

  -- The calls with two threads; the branches that leave clear the flag and join the thread first.
  unfoldable pub together : Program W (Unit {0})
  together = do
    ret ← set_repl 1
    when (is_neg ret) (exit 1)
    ret ← get_repl
    when (not (is_nonzero ret)) (exit 1)
    ret ← set_repl 1
    when (is_neg ret) (exit 1)
    ret ← set_repl 0
    when (is_neg ret) (exit 1)

  -- The waiting loop makes `rounds` rounds.
  unfoldable pub main : ℕ → Program W (Unit {0})
  main rounds = do
    alone
    effect (await_thread rounds)
    together
    ret ← set_repl 1
    when (is_neg ret) (exit 1)
    disable
    exit 0

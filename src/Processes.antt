-- ===== src/Processes.antt =====
-- test21.c: four processes with replication at the same time.
pub mod Verdict
pub mod Workers
pub mod Passing
use mitosis_tests.Base.{
  ℕ, zero, suc, ◌+◌, ◌-◌, ◌*◌, ◌%◌, Bool, true, false, not, ◌&&◌, ◌||◌, some, List, [], ◌∷◌, ◌++◌,
  ◌==◌, is_neg, is_nonzero, ℤ, pos, negsuc,
}
use mitosis_tests.Machine.{
  Program, pure, exit, quietly, ◌>>=◌, ◌>>◌, when, choose, require, set_repl, get_repl, Replication,
  malloc, free, effect, Memory, Child, fork, is_failure, Tasks, Reaping,
}
use mitosis_tests.Loops.{write_bytes, verify_bytes}

abbrev pub num_processes : ℕ
num_processes = 4

abbrev pub memory_size : ℕ
memory_size = 1024 * 1024

abbrev pub iterations : ℕ
iterations = 100

-- one byte of every 4096
abbrev pub num_steps : ℕ
num_steps = 256

-- `pattern`, and the byte `pattern + i`
abbrev pub pattern : ℕ → ℕ
pattern id = id * 17 % 256

abbrev pub byte_of : (id i : ℕ) → ℕ
byte_of id i = (pattern id + i) % 256

-- `pid != pids[i]`
abbrev pub differs : ℤ → ℤ → Bool
differs (pos n) (pos m) = not (n == m)
differs (negsuc n) (negsuc m) = not (n == m)
differs _ _ = true

module _ {W : Type 0} ⦃tasks : Tasks W⦄ where
  module _ ⦃mem : Memory W⦄ where
    -- `n` rounds of the loop over the iterations, the next being the i-th: whether every byte was found
    unfoldable pub use_memory : (id a i n : ℕ) → Program W Bool
    use_memory id a i zero = pure true
    use_memory id a i (suc n) = do
      effect (write_bytes (λ k. byte_of id i) a 0 num_steps)
      good ← quietly (verify_bytes (λ k. byte_of id i) a 0 num_steps)
      choose good (do when (i % 10 == 0) (effect (tasks.usleep 1000)); use_memory id a (i + 1) n)
          (pure false)

    module _ ⦃sys : Replication W⦄ where
      -- `exit(worker_process(id))`
      unfoldable pub worker_process : ℕ → Program W (Unit {0})
      worker_process id = do
        found ← malloc memory_size
        a ← require found (exit 1)
        effect (mem.memset a (pattern id) memory_size)
        ret ← set_repl 1
        when (is_nonzero ret) (do free a; exit 1)
        get_repl
        good ← use_memory id a 0 iterations
        when (not good) (do free a; exit 1)
        ret ← set_repl 0
        when (is_nonzero ret) (do free a; exit 1)
        good ← quietly (verify_bytes (λ k. byte_of id (iterations - 1)) a 0 num_steps)
        when (not good) (do free a; exit 1)
        free a
        exit 0

  module _ ⦃reaping : Reaping W⦄ where
    -- `for (int j = 0; j < i; j++) kill(pids[j], SIGTERM);`
    unfoldable pub terminate_all : List (Child W) → W → W
    terminate_all [] w = w
    terminate_all (c ∷ l) w = terminate_all l (reaping.terminate c.pid w)

    -- The loop that waits for the workers: whether each ended with status 0.
    unfoldable pub wait_workers : List (Child W) → Program W Bool
    wait_workers [] = pure true
    wait_workers (c ∷ l) = do
      r ← quietly (λ w.
          let r = reaping.reap c.pid (some (c.exit_status, c.final.env)) w in
          ((differs r.result c.pid) || is_failure r.status, r.world))
      rest ← wait_workers l
      pure (not r && rest)

    module _ ⦃mem : Memory W⦄ ⦃sys : Replication W⦄ where
      -- `n` rounds of the loop of the forks, the next being the i-th, after the workers of `before`
      unfoldable pub fork_workers : (i n : ℕ) → List (Child W) → Program W (List (Child W))
      fork_workers i zero before = pure before
      fork_workers i (suc n) before = do
        started ← fork (worker_process i)
        when (is_neg started.pid) (do effect (terminate_all before); exit 1)
        effect (tasks.usleep 10000)
        fork_workers (i + 1) n (before ++ (started ∷ []))

      unfoldable pub main : Program W (Unit {0})
      main = do
        workers ← fork_workers 0 num_processes []
        pass ← wait_workers workers
        when pass (exit 0)
        exit 1

-- ===== src/Processes/Workers.antt =====
-- What a worker of test21.c does to its memory, and what it leaves behind.
use mitosis_tests.Base.{
  ℕ, zero, suc, ◌+◌, ◌-◌, ◌*◌, ◌%◌, ◌<◌, ◌≡◌, refl, ◌∙◌, subst, [], ◌∷◌, ◌⊎◌, Bool, true, some, pos,
  arith, inl, inr, Bool-cases, ◌==◌,
}
use mitosis_tests.Machine.{
  Outcome, ended, Process, IsSettled, calls, status, start, ok, Replication, Memory, Tasks,
  Remembers, pr_set_pgtable_repl, pr_get_pgtable_repl, get, set, acquire, block,
}
use mitosis_tests.Loops.{write_bytes, verify_bytes}
use mitosis_tests.Loops.Pages.{
  verify_bytes-write_bytes, verify_bytes-true, verify_bytes-byte, write_bytes-at,
}
use mitosis_tests.Processes.{
  num_steps, iterations, memory_size, pattern, byte_of, use_memory, worker_process,
}

abbrev IsAnswer : Outcome Bool → Type 0
IsAnswer (ok b) = Unit
IsAnswer (ended n) = ⊥

module _ {W : Type 0} ⦃tasks : Tasks W⦄ ⦃mem : Memory W⦄ where
  -- The worker makes no call that the trace shows while it uses its memory.
  use_memory-trace : (id a i n : ℕ) (s : Process W) → (use_memory id a i n s).1.trace ≡ s.trace
  unfolding use_memory
  use_memory-trace id a i zero s = refl
  use_memory-trace id a i (suc n) s =
      let w1 =
        (verify_bytes (λ k. byte_of id i) a 0 num_steps
          (write_bytes (λ k. byte_of id i) a 0 num_steps s.env)).1 in
      ground (
        arith,
        use_memory-trace id a (i + 1) n (record s { env = w1 }),
        use_memory-trace id a (i + 1) n (record s { env = tasks.usleep 1000 w1 }),
      )

  use_memory-IsTold : (id a i n : ℕ) (s : Process W) → IsAnswer (use_memory id a i n s).0
  unfolding use_memory
  use_memory-IsTold id a i zero s = tt
  use_memory-IsTold id a i (suc n) s =
      let w1 =
        (verify_bytes (λ k. byte_of id i) a 0 num_steps
          (write_bytes (λ k. byte_of id i) a 0 num_steps s.env)).1 in
      ground (
        arith,
        use_memory-IsTold id a (i + 1) n (record s { env = w1 }),
        use_memory-IsTold id a (i + 1) n (record s { env = tasks.usleep 1000 w1 }),
      )

  module _ ⦃sys : Replication W⦄ where
    -- Whatever the system answers, a worker of test21.c frees its memory exactly once if it was given it, on each
    -- of its paths: a refused switch, a byte that is wrong in one of the iterations or after them, and the end.
    worker-IsSettled : (id : ℕ) (w : W) → IsSettled (calls (worker_process id) (start w))
    unfolding worker_process
    worker-IsSettled id w r = grind (arith, use_memory-trace, use_memory-IsTold)

  module _ {byte word : W → ℕ → ℕ} (r : Remembers mem byte word) where
    -- Every page of the memory starts with the byte of iteration `i`.
    abbrev IsPainted : (id a i : ℕ) → W → Type 0
    IsPainted id a i w = (k : ℕ) → k < num_steps → byte w (a + k * 4096) ≡ byte_of id i

    round_lem :
        (id a i : ℕ) (w : W)
        → let v =
            verify_bytes
              (λ k. byte_of id i)
              a
              0
              num_steps
              (write_bytes (λ k. byte_of id i) a 0 num_steps w) in
          (v.0 ≡ true) × IsPainted id a i v.1
    round_lem id a i w =
        let w' = write_bytes (λ k. byte_of id i) a 0 num_steps w in
        (
          verify_bytes-write_bytes r (λ k. byte_of id i) a 0 num_steps w (λ k lt. omega arith),
          λ k lt.
              verify_bytes-byte r (λ k. byte_of id i) a 0 num_steps (a + k * 4096) w'
              ∙ write_bytes-at r (λ k. byte_of id i) a 0 num_steps k w (omega arith) (omega arith)
                  (omega arith),
        )

    -- The last of the iterations paints the memory; `m` is its number.
    use_memory-passes :
        (sleeps : (n b : ℕ) (w : W) → byte (tasks.usleep n w) b ≡ byte w b)
        → (id a i n m : ℕ) (s : Process W) → i + n ≡ m + 1
        → (0 < n) ⊎ IsPainted id a (i - 1) s.env
        → ((use_memory id a i n s).0 ≡ ok true) × IsPainted id a m (use_memory id a i n s).1.env
    unfolding use_memory
    use_memory-passes sleeps id a i zero m s e (inl lt) = absurd (omega arith)
    use_memory-passes sleeps id a i zero m s e (inr h) =
        let last : i - 1 ≡ m = omega arith in (refl, subst (λ j. IsPainted id a j s.env) last h)
    use_memory-passes sleeps id a i (suc n) m s e h =
        let w1 =
          (verify_bytes (λ k. byte_of id i) a 0 num_steps
            (write_bytes (λ k. byte_of id i) a 0 num_steps s.env)).1 in
        let (good, painted) = round_lem id a i s.env in
        let same : i ≡ i + 1 - 1 = omega arith in
        elim (Bool-cases (i % 10 == 0)) [
          | inl slept ↦
              let w2 = tasks.usleep 1000 w1 in
              let kept : IsPainted id a i w2 =
                λ k lt. sleeps 1000 (a + k * 4096) w1 ∙ painted k lt in
              rw (good, slept)
                (use_memory-passes sleeps id a (i + 1) n m (record s { env = w2 }) (omega arith)
                  (inr (subst (λ j. IsPainted id a j w2) same kept)))
          | inr awake ↦
              rw (good, awake)
                (use_memory-passes sleeps id a (i + 1) n m (record s { env = w1 }) (omega arith)
                  (inr (subst (λ j. IsPainted id a j w1) same painted)))
        ]

    -- On memory that keeps what is written and that prctl and sleeping keep, where malloc gives memory and
    -- replication can be switched on and off, every worker of test21.c ends with status 0: it finds the byte
    -- of each of its hundred iterations on every page, and the last one after the switch-off.
    pub worker-passes :
        ⦃sys : Replication W⦄
        → (sleeps : (n b : ℕ) (w : W) → byte (tasks.usleep n w) b ≡ byte w b)
        → (keeps : (option n b : ℕ) (w : W) → byte (sys.prctl option n w).1 b ≡ byte w b)
        → (grants : (n : ℕ) (w : W) → (sys.prctl pr_set_pgtable_repl n w).0 ≡ pos 0)
        → (gives : (w : W) → (a : ℕ) × ((mem.malloc memory_size w).0 ≡ some a)) → (id : ℕ) (w : W)
        → status (worker_process id) (start w) ≡ 0
    unfolding worker_process
    worker-passes ⦃sys⦄ sleeps keeps grants gives id w =
        let (a, e) = gives w in
        let w1 = mem.memset a (pattern id) memory_size (mem.malloc memory_size w).1 in
        let (on, w2) = sys.prctl pr_set_pgtable_repl 1 w1 in
        let (mask, w3) = sys.prctl pr_get_pgtable_repl 0 w2 in
        let p : Process W = record {
          env = w3;
          trace = get mask ∷ set 1 on ∷ acquire (block a) ∷ [];
        } in
        let (used, painted) =
          use_memory-passes sleeps id a 0 iterations (iterations - 1) p (omega arith)
            (inl (omega arith)) in
        let w4 = (use_memory id a 0 iterations p).1.env in
        let w5 = (sys.prctl pr_set_pgtable_repl 0 w4).1 in
        let found =
          verify_bytes-true r (λ k. byte_of id (iterations - 1)) a 0 num_steps w5
            (λ k le lt. keeps pr_set_pgtable_repl 0 (a + k * 4096) w4 ∙ painted k (omega arith)) in
        ground (arith, e, grants 1 w1, grants 0 w4, used, found)

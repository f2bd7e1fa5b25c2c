-- ===== src/Sections/Program.antt =====
-- `main` of test18.c.
use mitosis_tests.Base.{
  ℕ, zero, suc, ◌+◌, ◌-◌, ◌*◌, Bool, true, false, not, ◌&&◌, List, [], ◌∷◌, ltb, ◌==◌,
  if◌then◌else◌, is_neg, is_positive,
}
use mitosis_tests.Machine.{
  Process, Program, Quiet, ok, exit, quietly, ◌>>=◌, ◌>>◌, when, require, choose, set_repl,
  get_repl, disable, Replication, mmap, munmap, effect, Memory, read_write, private_anonymous,
  Threads,
}
use mitosis_tests.Machine.Pool.{crew}
use mitosis_tests.Sections.Worker.{
  test_size, num_threads, section_byte, page_of, writing, asking, Worker, Shared, rank, advance,
}

-- the thread that main creates when `left` more members of the crew are to come after it; the last member
-- is main itself
unfoldable pub spawn : ℕ → Worker
spawn zero = record { thread_id = num_threads; place = asking; errors = 0 }
spawn (suc left) = record { thread_id = num_threads - 1 - left; place = writing 0 256; errors = 0 }

-- as many steps as all can make
abbrev pub enough : ℕ
enough = num_threads * 520 + 10

-- `thread_errors[i] != 0` for some thread
abbrev pub all_clean : List Worker → Bool
all_clean [] = true
all_clean (t ∷ l) = (t.errors == 0) && all_clean l

module _ {W : Type 0} ⦃sys : Replication W⦄ ⦃mem : Memory W⦄ where
  -- "Verify each thread's section": the first page of each, all of them looked at
  unfoldable pub verify_sections : ℕ → ℕ → ℕ → Quiet W Bool
  verify_sections shared_mem i zero w = (true, w)
  verify_sections shared_mem i (suc n) w =
      let (x, w1) = mem.load (page_of shared_mem i 0) w in
      let (rest, w2) = verify_sections shared_mem (i + 1) n w1 in
      ((x == section_byte i) && rest, w2)

  -- the label `cleanup`
  unfoldable pub cleanup : ℕ → Bool → Program W (Unit {0})
  cleanup shared_mem test_passed = do
    disable
    munmap shared_mem test_size
    when test_passed (exit 0)
    exit 1

  module _ ⦃threads : Threads W⦄ where
    -- one round of the loop that creates the threads; no thread is created for main
    unfoldable pub create : Shared W → Bool × Shared W
    create s =
        let (good, w) = threads.pthread_create s.process.env in
        if ltb s.i num_threads
        then (good, record s { process = record s.process { env = w }; i = s.i + 1 })
        else (true, s)

    -- the creation of the threads, the look at the replication and the work of the threads, up to where
    -- every thread spins
    abbrev pub work :
        ℕ → List ℕ → Process W → record { created : Bool; threads : List Worker; shared : Shared W }
    work shared_mem schedule p =
        crew (advance shared_mem) rank create spawn enough schedule (num_threads + 1) []
          (record { process = p; threads_ready = 0; i = 0; test_passed = true })

    -- whether every thread was created, and `test_passed` when they are joined
    unfoldable pub run_threads : ℕ → List ℕ → Program W (Bool × Bool)
    run_threads shared_mem schedule p =
        let c = work shared_mem schedule p in
        (ok (c.created, c.shared.test_passed && all_clean c.threads), c.shared.process)

    -- from the creation of the threads on
    unfoldable pub use_threads : ℕ → List ℕ → Program W (Unit {0})
    use_threads shared_mem schedule = do
      (created, test_passed) ← run_threads shared_mem schedule
      choose (not created) (cleanup shared_mem false) do
        get_repl
        good ← quietly (verify_sections shared_mem 0 num_threads)
        cleanup shared_mem (test_passed && good)

    unfoldable pub main : List ℕ → Program W (Unit {0})
    main schedule = do
      found ← mmap private_anonymous test_size read_write
      shared_mem ← require found (exit 1)
      effect (mem.memset shared_mem 0x55 test_size)
      ret ← set_repl 1
      when (is_neg ret) (do munmap shared_mem test_size; exit 1)
      ret ← get_repl
      choose (not (is_positive ret)) (cleanup shared_mem false) (use_threads shared_mem schedule)

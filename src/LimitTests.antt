-- ===== src/LimitTests.antt =====
-- test31.c: replication under lowered resource limits.
pub mod Hygiene
use mitosis_tests.Base.{ℕ, zero, suc, ◌+◌, ◌*◌, ◌%◌, not, ltb, ◌!=◌, is_neg, is_nonzero}
use mitosis_tests.Machine.{
  Limit, data_segment, stack_size, processes, cpu_time, Program, pure, exit, quietly, ◌>>=◌, ◌>>◌,
  when, require, either, set_repl, get_repl, disable, Replication, malloc, free, effect, Memory,
  Nodes, lower_limit, restore_limit, Limits,
}

module _ {W : Type 0} ⦃sys : Replication W⦄ ⦃limits : Limits W⦄ where
  -- "Test 1": default limits
  unfoldable pub default_limits : Program W (Unit {0})
  default_limits = do
    ret ← set_repl 1
    when (is_neg ret) (exit 1)
    repl_status ← get_repl
    when (not (is_nonzero repl_status)) (exit 1)
    disable

  -- `if (getrlimit(...) < 0) <warn> else { lower it; if it could be lowered, <use it> }`
  abbrev pub under : Limit → ℕ → (ℕ × ℕ → Program W (Unit {0})) → Program W (Unit {0})
  under limit soft body = do
    found ← quietly (limits.getrlimit limit)
    either found (pure tt) (λ orig_rlim. do
      ret ← lower_limit limit soft orig_rlim.1
      when (not (is_neg ret)) (body orig_rlim))

  -- "Test 4": RLIMIT_NPROC
  unfoldable pub process_limit : Program W (Unit {0})
  process_limit = under processes 10 λ orig_rlim. do
    ret ← set_repl 1
    when (is_neg ret) (do restore_limit processes orig_rlim; exit 1)
    repl_status ← get_repl
    when (not (is_nonzero repl_status)) (do restore_limit processes orig_rlim; exit 1)
    disable
    restore_limit processes orig_rlim

  module _ ⦃mem : Memory W⦄ where
    -- "Test 2": RLIMIT_DATA
    unfoldable pub data_limit : Program W (Unit {0})
    data_limit = under data_segment (16 * 1024 * 1024) λ orig_rlim. do
      ret ← set_repl 1
      when (not (is_neg ret)) (do
        found ← malloc (1024 * 1024)
        test_mem ← require found (do disable; restore_limit data_segment orig_rlim; exit 1)
        effect (mem.memset test_mem 0xAA (1024 * 1024))
        value ← quietly (mem.load test_mem)
        when (value != 0xAA)
            (do free test_mem; disable; restore_limit data_segment orig_rlim; exit 1)
        free test_mem
        disable)
      restore_limit data_segment orig_rlim

    -- "Test 3": RLIMIT_STACK; `buffer` is the address of the array `stack_test`
    unfoldable pub stack_limit : ℕ → Program W (Unit {0})
    stack_limit buffer = under stack_size (2 * 1024 * 1024) λ orig_rlim. do
      ret ← set_repl 1
      when (not (is_neg ret)) (do
        effect (mem.memset buffer 0xBB 1024)
        first ← quietly (mem.load buffer)
        when (first != 0xBB) (do disable; restore_limit stack_size orig_rlim; exit 1)
        last ← quietly (mem.load (buffer + 1023))
        when (last != 0xBB) (do disable; restore_limit stack_size orig_rlim; exit 1)
        disable)
      restore_limit stack_size orig_rlim

    -- `for (int i = 0; i < 1000; i++) memset(test_mem, i & 0xFF, 4096);`
    unfoldable pub churn : ℕ → ℕ → ℕ → W → W
    churn a i zero w = w
    churn a i (suc n) w = churn a (i + 1) n (mem.memset a (i % 256) 4096 w)

    -- "Test 5": RLIMIT_CPU
    unfoldable pub time_limit : Program W (Unit {0})
    time_limit = under cpu_time 60 λ orig_rlim. do
      ret ← set_repl 1
      when (is_neg ret) (do restore_limit cpu_time orig_rlim; exit 1)
      repl_status ← get_repl
      when (not (is_nonzero repl_status)) (do restore_limit cpu_time orig_rlim; exit 1)
      found ← malloc 4096
      test_mem ← require found (do disable; restore_limit cpu_time orig_rlim; exit 1)
      effect (churn test_mem 0 1000)
      free test_mem
      disable
      restore_limit cpu_time orig_rlim

    unfoldable pub tests : ℕ → Program W (Unit {0})
    tests buffer = do
      default_limits
      data_limit
      stack_limit buffer
      process_limit
      time_limit
      exit 0

    unfoldable pub main : ⦃nodes : Nodes W⦄ → ℕ → Program W (Unit {0})
    main ⦃nodes⦄ buffer = do
      available ← quietly (λ w. (nodes.numa_available w, w))
      when (is_neg available) (exit 0)
      num_nodes ← quietly (λ w. (nodes.numa_num_configured_nodes w, w))
      when (ltb num_nodes 2) (exit 0)
      tests buffer

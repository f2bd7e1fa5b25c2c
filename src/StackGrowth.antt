-- ===== src/StackGrowth.antt =====
-- test13.c: a stack that grows by recursion, alloca() and arrays of variable length.
pub mod Verdict
use mitosis_tests.Base.{
  ℕ, zero, suc, ◌+◌, ◌-◌, ◌*◌, ◌%◌, Bool, true, false, not, ◌&&◌, Option, List, [], ◌∷◌, ltb, ◌==◌,
  is_neg, is_nonzero, is_positive, ℤ, pos, negsuc, if◌then◌else◌,
}
use mitosis_tests.Machine.{
  Program, Quiet, pure, exit, quietly, ◌>>=◌, ◌>>◌, when, require, either, set_repl, get_repl,
  disable, Replication, effect, Memory, stack_size, Limits,
}
use mitosis_tests.Loops.{is_painted, copy_text, same_text, fill_initial, check_initial}

abbrev pub stack_depth : ℕ
stack_depth = 100

abbrev pub large_size : ℕ
large_size = 4096 * 5

-- "StackBottom" and "AllocaTest", with the byte that ends a string
abbrev pub stack_bottom : List ℕ
stack_bottom = b'S' ∷ b't' ∷ b'a' ∷ b'c' ∷ b'k' ∷ b'B' ∷ b'o' ∷ b't' ∷ b't' ∷ b'o' ∷ b'm' ∷ 0 ∷ []

abbrev pub alloca_test : List ℕ
alloca_test = b'A' ∷ b'l' ∷ b'l' ∷ b'o' ∷ b'c' ∷ b'a' ∷ b'T' ∷ b'e' ∷ b's' ∷ b't' ∷ 0 ∷ []

-- The addresses that the compiler and alloca() give; `frame n` is `large_buffer` at depth `n`.
pub record Stack : Type 0 where
  pub frame : ℕ → ℕ
  pub bottom : ℕ
  pub stack_buffer : ℕ
  pub stack_var : Option ℕ
  pub vla_buffer : ℕ
  pub large_var : Option ℕ

module _ {W : Type 0} ⦃mem : Memory W⦄ where
  unfoldable pub recursive_stack_test : Stack → (depth pattern : ℕ) → Quiet W ℤ
  recursive_stack_test stack zero pattern w =
      let (good, w1) =
        is_painted (stack.frame zero) pattern 4096 (mem.memset (stack.frame zero) pattern 4096 w) in
      let (same, w2) =
        same_text stack.bottom stack_bottom (copy_text stack.bottom stack_bottom w1) in
      elim good [ true ↦ (if same then pos 0 else negsuc 1, w2) | false ↦ (negsuc 0, w1) ]
  recursive_stack_test stack (suc depth) pattern w =
      let a = stack.frame (suc depth) in
      let (good, w1) = is_painted a pattern 4096 (mem.memset a pattern 4096 w) in
      let deeper = recursive_stack_test stack depth ((pattern + 1) % 256) w1 in
      elim good [ true ↦ deeper | false ↦ (negsuc 0, w1) ]

  module _ ⦃sys : Replication W⦄ where
    -- "Test 4" and "Test 5"
    unfoldable pub large_arrays : Stack → Program W (Unit {0})
    large_arrays stack = do
      effect (fill_initial stack.vla_buffer 0 1024)
      good ← quietly (check_initial stack.vla_buffer 0 1024)
      when (not good) (do disable; exit 1)
      either stack.large_var (pure tt) (λ a. do
        effect (mem.memset a b'L' large_size)
        first ← quietly (mem.load a)
        when (not (first == b'L')) (do disable; exit 1)
        last ← quietly (mem.load (a + large_size - 1))
        when (not (last == b'L')) (do disable; exit 1))

    -- "Test 1" to "Test 3"
    unfoldable pub small_arrays : Stack → Program W (Unit {0})
    small_arrays stack = do
      effect (mem.memset stack.stack_buffer b'S' 8192)
      first ← quietly (mem.load stack.stack_buffer)
      when (not (first == b'S')) (do disable; exit 1)
      last ← quietly (mem.load (stack.stack_buffer + 8191))
      when (not (last == b'S')) (do disable; exit 1)
      a ← require stack.stack_var (do disable; exit 1)
      effect (copy_text a alloca_test)
      same ← quietly (same_text a alloca_test)
      when (not same) (do disable; exit 1)
      result ← quietly (recursive_stack_test stack stack_depth b'A')
      when (is_nonzero result) (do disable; exit 1)

    unfoldable pub main : ⦃limits : Limits W⦄ → Stack → Program W (Unit {0})
    main ⦃limits⦄ stack = do
      found ← quietly (limits.getrlimit stack_size)
      rlim ← require found (exit 1)
      when (ltb rlim.0 (8 * 1024 * 1024))
          (effect (λ w. (limits.setrlimit stack_size (8 * 1024 * 1024) rlim.1 w).1))
      ret ← set_repl 1
      when (is_neg ret) (exit 1)
      small_arrays stack
      large_arrays stack
      ret ← get_repl
      when (not (is_positive ret)) (exit 1)
      disable
      exit 0

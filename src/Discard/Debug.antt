-- ===== src/Discard/Debug.antt =====
-- test27.c: MADV_DONTNEED on the first half of a mapping, with its errors counted.
use mitosis_tests.Base.{
  ℕ, zero, suc, ◌+◌, ◌*◌, ◌/◌, true, false, not, ltb, ◌==◌, is_neg, is_nonzero,
}
use mitosis_tests.Machine.{
  Program, Quiet, exit, quietly, ◌>>=◌, ◌>>◌, when, require, set_repl, get_repl, disable,
  Replication, mmap, munmap, effect, Memory, read_write, private_anonymous,
}
use mitosis_tests.Loops.{fill, verify}

abbrev pub test_size : ℕ
test_size = 4 * 1024 * 1024

-- TEST_SIZE / sizeof(int), and len / sizeof(int)
abbrev pub num_words : ℕ
num_words = 1048576

abbrev pub half_words : ℕ
half_words = 524288

abbrev pub word_pattern : ℕ
word_pattern = 0xDEADBEEF

module _ {W : Type 0} ⦃mem : Memory W⦄ where
  -- `errors` after the check of the first half, which stops at the eleventh error
  unfoldable pub count_errors : ℕ → ℕ → ℕ → Quiet W ℕ
  count_errors a zero errors w = (errors, w)
  count_errors a (suc n) errors w =
      let (x, w') = mem.load32 a w in
      let next = count_errors (a + 4) n errors w' in
      let next_error = count_errors (a + 4) n (errors + 1) w' in
      elim (x == 0) [
        | true ↦ next
        | false ↦ elim (ltb 10 (errors + 1)) [ true ↦ (errors + 1, w') | false ↦ next_error ]
      ]

  module _ ⦃sys : Replication W⦄ where
    -- from the check of the second half, which only prints
    unfoldable pub finish : ℕ → ℕ → Program W (Unit {0})
    finish ptr errors = do
      quietly (verify (ptr + test_size / 2) word_pattern half_words)
      munmap ptr test_size
      disable
      when (errors == 0) (exit 0)
      exit 1

    unfoldable pub main : Program W (Unit {0})
    unfolding finish
    main = do
      ret ← set_repl 1
      when (is_neg ret) (exit 1)
      get_repl
      found ← mmap private_anonymous test_size read_write
      ptr ← require found (exit 1)
      effect (fill ptr word_pattern num_words)
      good ← quietly (verify ptr word_pattern num_words)
      when (not good) (exit 1)
      ret ← quietly (mem.discard ptr (test_size / 2))
      when (is_nonzero ret) (exit 1)
      errors ← quietly (count_errors ptr half_words 0)
      finish ptr errors

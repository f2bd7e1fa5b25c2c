-- ===== src/Discard/Partial.antt =====
-- test16.c: MADV_DONTNEED on all of a mapping, on its first half, and under PROT_NONE.
use mitosis_tests.Base.{ℕ, ◌+◌, ◌*◌, ◌/◌, Bool, false, not, is_neg, is_nonzero}
use mitosis_tests.Machine.{
  Program, pure, exit, quietly, ◌>>=◌, ◌>>◌, when, require, choose, set_repl, get_repl, disable,
  Replication, mmap, munmap, effect, Memory, no_access, read_write, private_anonymous,
}
use mitosis_tests.Loops.{fill, verify}

abbrev pub test_size : ℕ
test_size = 4 * 1024 * 1024

-- TEST_SIZE / sizeof(int)
abbrev pub num_words : ℕ
num_words = 1048576

abbrev pub pattern1 : ℕ
pattern1 = 0xDEADBEEF

abbrev pub pattern2 : ℕ
pattern2 = 0xCAFEBABE

-- `goto cleanup` after `test_passed = 0`
abbrev fail : {W : Type 0} → Program W Bool
fail = pure false

module _ {W : Type 0} ⦃mem : Memory W⦄ where
  -- from "Test with mprotect + MADV_DONTNEED" to the label
  unfoldable pub guarded : ℕ → Program W Bool
  guarded ptr = do
    ret ← quietly (mem.mprotect ptr test_size no_access)
    choose (is_nonzero ret) fail do
      ret ← quietly (mem.discard ptr test_size)
      choose (is_nonzero ret) fail do
        ret ← quietly (mem.mprotect ptr test_size read_write)
        choose (is_nonzero ret) fail (quietly (verify ptr 0 num_words))

  -- from "Do partial MADV_DONTNEED"
  unfoldable pub first_half : ℕ → Program W Bool
  unfolding guarded
  first_half ptr = do
    ret ← quietly (mem.discard ptr (test_size / 2))
    choose (is_nonzero ret) fail do
      good ← quietly (verify ptr 0 (num_words / 2))
      choose (not good) fail do
        good ← quietly (verify (ptr + test_size / 2) pattern2 (num_words / 2))
        choose (not good) fail (guarded ptr)

  -- from the first write up to the label `cleanup`: `test_passed` there
  unfoldable pub body : ℕ → Program W Bool
  unfolding first_half
  body ptr = do
    effect (fill ptr pattern1 num_words)
    good ← quietly (verify ptr pattern1 num_words)
    choose (not good) fail do
      ret ← quietly (mem.discard ptr test_size)
      choose (is_nonzero ret) fail do
        good ← quietly (verify ptr 0 num_words)
        choose (not good) fail do
          effect (fill ptr pattern2 num_words)
          good ← quietly (verify ptr pattern2 num_words)
          choose (not good) fail (first_half ptr)

  module _ ⦃sys : Replication W⦄ where
    unfoldable pub main : Program W (Unit {0})
    main = do
      ret ← set_repl 1
      when (is_neg ret) (exit 1)
      get_repl
      found ← mmap private_anonymous test_size read_write
      ptr ← require found (exit 1)
      test_passed ← body ptr
      munmap ptr test_size
      disable
      when test_passed (exit 0)
      exit 1

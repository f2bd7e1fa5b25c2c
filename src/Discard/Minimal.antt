-- ===== src/Discard/Minimal.antt =====
-- test33.c: MADV_DONTNEED, one page at a time.
use mitosis_tests.Base.{ℕ, zero, suc, ◌+◌, ◌*◌, ◌!=◌, is_neg, is_nonzero}
use mitosis_tests.Machine.{
  Program, pure, exit, quietly, ◌>>=◌, ◌>>◌, when, require, set_repl, get_repl, disable,
  Replication, mmap, munmap, effect, Memory, read_write, private_anonymous,
}
use mitosis_tests.Loops.{fill}

abbrev pub num_pages : ℕ
num_pages = 10

abbrev pub test_size : ℕ
test_size = num_pages * 4096

abbrev pub word_pattern : ℕ
word_pattern = 0xDEADBEEF

module _ {W : Type 0} ⦃mem : Memory W⦄ where
  -- the loop over the pages, from `page` on
  unfoldable pub each_page : ℕ → ℕ → ℕ → Program W (Unit {0})
  each_page ptr page zero = pure tt
  each_page ptr page (suc n) = do
    effect (fill (ptr + page * 4096) word_pattern 1024)
    value ← quietly (mem.load32 (ptr + page * 4096))
    when (value != word_pattern) (exit 1)
    ret ← quietly (mem.discard (ptr + page * 4096) 4096)
    when (is_nonzero ret) (exit 1)
    value ← quietly (mem.load32 (ptr + page * 4096))
    when (value != 0) (exit 1)
    each_page ptr (page + 1) n

  module _ ⦃sys : Replication W⦄ where
    unfoldable pub main : Program W (Unit {0})
    main = do
      ret ← set_repl 1
      when (is_neg ret) (exit 1)
      get_repl
      found ← mmap private_anonymous test_size read_write
      ptr ← require found (exit 1)
      each_page ptr 0 num_pages
      munmap ptr test_size
      disable
      exit 0

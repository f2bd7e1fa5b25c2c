-- ===== src/Allocation.antt =====
-- test5.c: allocation while replication is on.
pub mod Hygiene
pub mod Verdict
use mitosis_tests.Base.{ℕ, ◌+◌, ◌-◌, ◌*◌, ◌%◌, not, ◌==◌, is_neg}
use mitosis_tests.Machine.{
  Program, pure, exit, quietly, ◌>>=◌, ◌>>◌, when, require, either, set_repl, disable, Replication,
  malloc, free, mmap, munmap, effect, Memory, read_write, private_anonymous,
}
use mitosis_tests.Loops.{write_bytes, verify_bytes}

-- 'A' + i, and 'a' + i % 26
abbrev pub heap_letter : ℕ → ℕ
heap_letter i = b'A' + i

abbrev pub map_letter : ℕ → ℕ
map_letter i = b'a' + i % 26

module _ {W : Type 0} ⦃sys : Replication W⦄ ⦃mem : Memory W⦄ where
  -- "Test 3": the first and the last byte of 2 MB; every branch goes on
  unfoldable pub large : Program W (Unit {0})
  large = do
    found ← mmap private_anonymous (2 * 1024 * 1024) read_write
    either found (pure tt) (λ large_mem. do
      effect (mem.store large_mem b'X')
      effect (mem.store (large_mem + 2 * 1024 * 1024 - 1) b'Y')
      first ← quietly (mem.load large_mem)
      when (first == b'X') (do quietly (mem.load (large_mem + 2 * 1024 * 1024 - 1)); pure tt)
      munmap large_mem (2 * 1024 * 1024)
      pure tt)

  unfoldable pub main : Program W (Unit {0})
  unfolding large
  main = do
    ret ← set_repl 1
    when (is_neg ret) (exit 1)
    found ← malloc (4096 * 10)
    mem1 ← require found (do disable; exit 1)
    effect (write_bytes heap_letter mem1 0 10)
    same_bytes ← quietly (verify_bytes heap_letter mem1 0 10)
    when (not same_bytes) (do free mem1; disable; exit 1)
    found ← mmap private_anonymous (4096 * 20) read_write
    mem2 ← require found (do free mem1; disable; exit 1)
    effect (write_bytes map_letter mem2 0 20)
    same_bytes ← quietly (verify_bytes map_letter mem2 0 20)
    when (not same_bytes) (do free mem1; munmap mem2 (4096 * 20); disable; exit 1)
    large
    free mem1
    munmap mem2 (4096 * 20)
    ret ← set_repl 0
    when (is_neg ret) (exit 1)
    exit 0

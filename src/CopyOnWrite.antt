-- ===== src/CopyOnWrite.antt =====
-- test10.c: a parent and its child of fork() write to the same private mapping.
pub mod Hygiene
pub mod Verdict
pub mod Pages
pub mod Isolation
use mitosis_tests.Base.{
  ℕ, zero, suc, ◌+◌, ◌*◌, ◌%◌, Bool, not, ◌==◌, if◌then◌else◌, is_neg, is_nonzero, is_positive,
}
use mitosis_tests.Machine.{
  Program, Quiet, exit, quietly, ◌>>=◌, ◌>>◌, when, require, set_repl, get_repl, disable,
  Replication, mmap, munmap, effect, Memory, read_write, private_anonymous, fork, waitpid,
  is_failure, Tasks,
}
use mitosis_tests.Loops.{verify_bytes}

abbrev pub num_pages : ℕ
num_pages = 10

-- `'0' + i`, the first byte of page `i`, and what the child and the parent expect there in the end
abbrev pub label : ℕ → ℕ
label i = b'0' + i

abbrev pub child_label : ℕ → ℕ
child_label i = if i % 2 == 0 then b'C' else label i

abbrev pub parent_label : ℕ → ℕ
parent_label i = if i % 2 == 0 then label i else b'P'

module _ {W : Type 0} ⦃mem : Memory W⦄ where
  -- "Initialize each page with unique pattern"
  unfoldable pub init_pages : ℕ → ℕ → ℕ → W → W
  init_pages a i zero w = w
  init_pages a i (suc n) w =
      init_pages a (i + 1) n
        (mem.store (a + i * 4096) (label i) (mem.memset (a + i * 4096) (b'A' + i) 4096 w))

  -- `for (; i < NUM_PAGES; i += 2) { mem[i * 4096] = first; memset(mem + (i * 4096) + 1, rest, 100); }`
  unfoldable pub modify_pages : ℕ → ℕ → ℕ → ℕ → ℕ → W → W
  modify_pages first rest a i zero w = w
  modify_pages first rest a i (suc n) w =
      modify_pages first rest a (i + 2) n
        (mem.memset (a + i * 4096 + 1) rest 100 (mem.store (a + i * 4096) first w))

  module _ ⦃sys : Replication W⦄ where
    -- the branch `pid == 0`
    unfoldable pub child : ℕ → Program W (Unit {0})
    child a = do
      ret ← get_repl
      when (is_nonzero ret) (exit 1)
      good ← quietly (verify_bytes label a 0 num_pages)
      when (not good) (exit 1)
      effect (modify_pages b'C' b'X' a 0 5)
      good ← quietly (verify_bytes child_label a 0 num_pages)
      when (not good) (exit 1)
      exit 0

    -- from the check of the parent's pages on
    unfoldable pub finish : ℕ → Program W (Unit {0})
    finish a = do
      good ← quietly (verify_bytes parent_label a 0 num_pages)
      when (not good) (do munmap a (4096 * num_pages); disable; exit 1)
      ret ← get_repl
      when (not (is_positive ret)) (do munmap a (4096 * num_pages); exit 1)
      munmap a (4096 * num_pages)
      disable
      exit 0

    module _ ⦃tasks : Tasks W⦄ where
      -- from the fork on
      unfoldable pub share : ℕ → Program W (Unit {0})
      share a = do
        started ← fork (child a)
        when (is_neg started.pid) (do munmap a (4096 * num_pages); disable; exit 1)
        effect (tasks.usleep 100000)
        effect (modify_pages b'P' b'Z' a 1 5)
        wstatus ← waitpid started
        when (is_failure wstatus) (do munmap a (4096 * num_pages); disable; exit 1)
        finish a

      unfoldable pub main : Program W (Unit {0})
      main = do
        ret ← set_repl 1
        when (is_neg ret) (exit 1)
        found ← mmap private_anonymous (4096 * num_pages) read_write
        a ← require found (do disable; exit 1)
        effect (init_pages a 0 num_pages)
        share a

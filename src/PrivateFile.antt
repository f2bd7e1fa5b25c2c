-- ===== src/PrivateFile.antt =====
-- test19.c: a private mapping of a file, which a parent and its child modify.
pub mod Verdict
pub mod Isolation
use mitosis_tests.Base.{
  ℕ, ◌+◌, ◌-◌, ◌*◌, ◌/◌, Bool, true, false, not, ◌&&◌, ◌||◌, ◌==◌, is_neg, is_nonzero, ℤ, pos,
  negsuc,
}
use mitosis_tests.Machine.{
  Program, exit, quietly, ◌>>=◌, ◌>>◌, when, require, set_repl, get_repl, Replication, malloc, free,
  mmap, munmap, effect, Memory, read_write, private_file, fork, waitpid, Status, is_failure, Tasks,
  open_file, close, unlink, Files,
}
use mitosis_tests.Loops.{fill_initial}

abbrev pub file_size : ℕ
file_size = 4096 * 10

-- `write(...) == FILE_SIZE`
abbrev pub wrote_all : ℤ → Bool
wrote_all (pos n) = n == file_size
wrote_all (negsuc n) = false

module _ {W : Type 0} ⦃mem : Memory W⦄ where
  -- "Modify some pages (triggers COW)"
  unfoldable pub modify : ℕ → W → W
  modify map w = mem.store (map + file_size - 1) 0xEE (
      mem.store (map + file_size / 2 + 1) 0xDD
        (mem.store (map + file_size / 2) 0xCC (mem.store (map + 100) 0xBB (mem.store map 0xAA w))))

  -- the branch `pid == 0`
  unfoldable pub child : ℕ → Program W (Unit {0})
  child map = do
    effect (mem.store map 0xFF)
    effect (mem.store (map + file_size / 2) 0x11)
    first ← quietly (mem.load map)
    when (not (first == 0xFF)) (exit 1)
    middle ← quietly (mem.load (map + file_size / 2))
    when (not (middle == 0x11)) (exit 1)
    exit 0

  module _ ⦃sys : Replication W⦄ ⦃files : Files W⦄ where
    -- from the checks of the parent on, given the child's status
    unfoldable pub finish : (map fd : ℕ) → Status → Program W (Unit {0})
    finish map fd status = do
      first ← quietly (mem.load map)
      second ← quietly (mem.load (map + 100))
      middle ← quietly (mem.load (map + file_size / 2))
      last ← quietly (mem.load (map + file_size - 1))
      ret ← set_repl 0
      quietly (mem.load map)
      quietly (mem.load (map + file_size / 2))
      quietly (mem.load (map + file_size - 1))
      munmap map file_size
      close fd
      unlink
      when
          ((first == 0xAA)
            && (second == 0xBB)
            && (middle == 0xCC)
            && (last == 0xEE)
            && not (is_nonzero ret)
            && not (is_failure status))
          (exit 0)
      exit 1

    module _ ⦃tasks : Tasks W⦄ where
      -- from the mapping of the file on
      unfoldable pub share : (fd : ℕ) → Program W (Unit {0})
      share fd = do
        found ← mmap (private_file fd) file_size read_write
        map ← require found (do close fd; exit 1)
        ret ← set_repl 1
        when (is_nonzero ret) (do munmap map file_size; close fd; exit 1)
        get_repl
        effect (modify map)
        started ← fork (child map)
        when (is_neg started.pid) (do munmap map file_size; close fd; exit 1)
        status ← waitpid started
        finish map fd status

      -- malloc() is not checked: where it gives NULL, the write to it kills the process, by signal 11.
      unfoldable pub main : Program W (Unit {0})
      main = do
        found ← open_file
        fd ← require found (exit 1)
        found ← malloc file_size
        initial ← require found (exit 139)
        effect (fill_initial initial 0 file_size)
        written ← quietly (files.write fd initial file_size)
        when (not (wrote_all written)) (do close fd; free initial; exit 1)
        free initial
        share fd

-- ===== src/SharedMemory.antt =====
-- test8.c: memory that a parent and its child share, and a shared object with a name.
pub mod Verdict
pub mod Hygiene
use mitosis_tests.Base.{
  ℕ, zero, suc, ◌+◌, ◌%◌, ◌^◌, Bool, not, ◌==◌, if◌then◌else◌, List, [], ◌∷◌, ◌++◌, is_neg,
  is_nonzero, is_positive,
}
use mitosis_tests.Machine.{
  Program, Quiet, pure, exit, quietly, ◌>>=◌, ◌>>◌, when, require, either, set_repl, get_repl,
  disable, Replication, mmap, munmap, effect, Memory, read_write, shared_anonymous, shared_file,
  is_failure, fork, waitpid, Tasks, Files, close, SharedObjects, shm_open, shm_unlink,
}
use mitosis_tests.Loops.{copy_text, same_text}

-- "Parent", "+Child" and "Parent+Child"
abbrev pub parent_letters : List ℕ
parent_letters = b'P' ∷ b'a' ∷ b'r' ∷ b'e' ∷ b'n' ∷ b't' ∷ []

abbrev pub child_text : List ℕ
child_text = b'+' ∷ b'C' ∷ b'h' ∷ b'i' ∷ b'l' ∷ b'd' ∷ 0 ∷ []

abbrev pub both_text : List ℕ
both_text = parent_letters ++ child_text

-- the address of `shared_buffer`, behind the counter
abbrev pub shared_buffer : ℕ → ℕ
shared_buffer shared_mem = shared_mem + 4

module _ {W : Type 0} ⦃mem : Memory W⦄ where
  -- where strcat() finds the end of a string of at most so many characters
  unfoldable pub end_of_text : ℕ → ℕ → Quiet W ℕ
  end_of_text zero a w = (a, w)
  end_of_text (suc n) a w =
      let (x, w') = mem.load a w in
      let rest = end_of_text n (a + 1) w' in if x == 0 then (a, w') else rest

  -- `(*shared_counter)++; strcat(shared_buffer, "+Child");`, in a mapping of 4096 bytes
  unfoldable pub modify : ℕ → W → W
  modify shared_mem w =
      let (x, w1) = mem.load32 shared_mem w in
      let (end, w2) =
        end_of_text 4092 (shared_buffer shared_mem)
          (mem.store32 shared_mem ((x + 1) % 2 ^ 32) w1) in
      copy_text end child_text w2

  module _ ⦃sys : Replication W⦄ where
    -- the branch `pid == 0`
    unfoldable pub child : ℕ → Program W (Unit {0})
    child shared_mem = do
      ret ← get_repl
      when (is_nonzero ret) (exit 1)
      effect (modify shared_mem)
      x ← quietly (mem.load32 shared_mem)
      when (not (x == 1)) (exit 1)
      exit 0

    abbrev fail : ℕ → Program W (Unit {0})
    fail shared_mem = do munmap shared_mem 4096; disable; exit 1

    -- "Parent checks shared memory modifications"
    unfoldable pub check_parent : ℕ → Program W (Unit {0})
    check_parent shared_mem = do
      x ← quietly (mem.load32 shared_mem)
      when (not (x == 1)) (fail shared_mem)
      same ← quietly (same_text (shared_buffer shared_mem) both_text)
      when (not same) (fail shared_mem)
      munmap shared_mem 4096
      pure tt

    module _ ⦃tasks : Tasks W⦄ where
      -- from the fork on, up to "Test 2"
      unfoldable pub share : ℕ → Program W (Unit {0})
      share shared_mem = do
        started ← fork (child shared_mem)
        when (is_neg started.pid) (fail shared_mem)
        wstatus ← waitpid started
        when (is_failure wstatus) (fail shared_mem)
        check_parent shared_mem

    module _ ⦃files : Files W⦄ ⦃objects : SharedObjects W⦄ where
      abbrev close_object : ℕ → Program W (Unit {0})
      close_object fd = do close fd; shm_unlink

      -- "Test 2: File-backed shared memory"
      unfoldable pub use_object : Program W (Unit {0})
      use_object = do
        found ← shm_open
        either found (pure tt) (λ fd. do
          effect (objects.ftruncate fd 4096)
          found ← mmap (shared_file fd) 4096 read_write
          file_mem ← require found (do close_object fd; disable; exit 1)
          effect (mem.memset file_mem b'X' 4096)
          effect (mem.store file_mem b'S')
          effect (mem.store (file_mem + 4095) b'E')
          first ← quietly (mem.load file_mem)
          when (not (first == b'S')) (do munmap file_mem 4096; close_object fd; disable; exit 1)
          last ← quietly (mem.load (file_mem + 4095))
          when (not (last == b'E')) (do munmap file_mem 4096; close_object fd; disable; exit 1)
          munmap file_mem 4096
          close_object fd)

      module _ ⦃tasks : Tasks W⦄ where
        unfoldable pub main : Program W (Unit {0})
        main = do
          ret ← set_repl 1
          when (is_neg ret) (exit 1)
          found ← mmap shared_anonymous 4096 read_write
          shared_mem ← require found (do disable; exit 1)
          effect (mem.store32 shared_mem 0)
          effect (copy_text (shared_buffer shared_mem) (parent_letters ++ (0 ∷ [])))
          share shared_mem
          use_object
          ret ← get_repl
          when (not (is_positive ret)) (exit 1)
          disable
          exit 0

-- ===== src/FileMapping.antt =====
-- test29.c: private and shared mappings of a file.
pub mod Hygiene
use mitosis_tests.Base.{
  ℕ, zero, suc, ◌+◌, ◌*◌, ◌%◌, Bool, true, false, not, ltb, ◌==◌, is_neg, is_nonzero, ℤ, pos,
  negsuc,
}
use mitosis_tests.Machine.{
  Program, Quiet, exit, quietly, ◌>>=◌, ◌>>◌, when, require, set_repl, get_repl, disable,
  Replication, malloc, free, mmap, munmap, effect, Memory, read, read_write, private_file,
  shared_file, Nodes, open_file, close, unlink, Files,
}
use mitosis_tests.Loops.{initial_byte, fill_initial, write_bytes, verify_bytes}

-- 16 * 4096
abbrev pub file_size : ℕ
file_size = 65536

-- `write(...) == file_size`
abbrev is_whole : ℤ → Bool
is_whole (pos n) = n == file_size
is_whole (negsuc n) = false

module _ {W : Type 0} ⦃mem : Memory W⦄ where
  -- `shared_buf[i] = 0xBB;` on every second page, and the check of the same pages
  unfoldable pub write_even : ℕ → ℕ → W → W
  write_even a zero w = w
  write_even a (suc n) w = write_even (a + 8192) n (mem.store a 0xBB w)

  unfoldable pub verify_even : ℕ → ℕ → Quiet W Bool
  verify_even a zero w = (true, w)
  verify_even a (suc n) w =
      let (x, w') = mem.load a w in
      let rest = verify_even (a + 8192) n w' in
      elim (x == 0xBB) [ true ↦ rest | false ↦ (false, w') ]

  module _ ⦃files : Files W⦄ where
    -- `free(initial_data); close(fd); unlink(filename);`
    abbrev pub drop : ℕ → ℕ → Program W (Unit {0})
    drop initial_data fd = do free initial_data; close fd; unlink

    module _ ⦃sys : Replication W⦄ where
      -- from "Verify replication still active" on
      unfoldable pub finish : ℕ → ℕ → ℕ → ℕ → ℕ → Program W (Unit {0})
      finish initial_data fd map_private map_shared map_verify = do
        repl_status ← get_repl
        when (not (is_nonzero repl_status)) (do
          munmap map_private file_size
          munmap map_shared file_size
          munmap map_verify file_size
          drop initial_data fd
          exit 1)
        munmap map_private file_size
        munmap map_shared file_size
        munmap map_verify file_size
        drop initial_data fd
        disable
        exit 0

      -- "Test 3": a new mapping sees the shared changes
      unfoldable pub test_verify : ℕ → ℕ → ℕ → ℕ → Program W (Unit {0})
      test_verify initial_data fd map_private map_shared = do
        found ← mmap (private_file fd) file_size read
        map_verify ← require found (do
          munmap map_private file_size
          munmap map_shared file_size
          drop initial_data fd
          exit 1)
        good ← quietly (verify_even map_verify 8)
        when (not good) (do
          munmap map_private file_size
          munmap map_shared file_size
          munmap map_verify file_size
          drop initial_data fd
          exit 1)
        finish initial_data fd map_private map_shared map_verify

      -- "Test 2": a shared mapping
      unfoldable pub test_shared : ℕ → ℕ → ℕ → Program W (Unit {0})
      test_shared initial_data fd map_private = do
        found ← mmap (shared_file fd) file_size read_write
        map_shared ← require found (do munmap map_private file_size; drop initial_data fd; exit 1)
        good ← quietly (verify_bytes (λ i. initial_byte (i * 4096)) map_shared 0 16)
        when (not good) (do
          munmap map_private file_size
          munmap map_shared file_size
          drop initial_data fd
          exit 1)
        effect (write_even map_shared 8)
        quietly (files.msync map_shared file_size)
        test_verify initial_data fd map_private map_shared

      -- "Test 1": a private mapping
      unfoldable pub test_private : ℕ → ℕ → Program W (Unit {0})
      test_private initial_data fd = do
        found ← mmap (private_file fd) file_size read_write
        map_private ← require found (do drop initial_data fd; exit 1)
        good ← quietly (verify_bytes (λ i. initial_byte (i * 4096)) map_private 0 16)
        when (not good) (do munmap map_private file_size; drop initial_data fd; exit 1)
        effect (write_bytes (λ _. 0xAA) map_private 0 16)
        good ← quietly (verify_bytes (λ _. 0xAA) map_private 0 16)
        when (not good) (do munmap map_private file_size; drop initial_data fd; exit 1)
        test_shared initial_data fd map_private

      -- from "Create test file" up to the first test
      unfoldable pub test_file : Program W (Unit {0})
      test_file = do
        found ← open_file
        fd ← require found (exit 1)
        found ← malloc file_size
        initial_data ← require found (do close fd; unlink; exit 1)
        effect (fill_initial initial_data 0 file_size)
        written ← quietly (files.write fd initial_data file_size)
        when (not (is_whole written)) (do drop initial_data fd; exit 1)
        ret ← set_repl 1
        when (is_neg ret) (do drop initial_data fd; exit 1)
        repl_status ← get_repl
        when (not (is_nonzero repl_status)) (do drop initial_data fd; exit 1)
        test_private initial_data fd

      unfoldable pub main : ⦃nodes : Nodes W⦄ → Program W (Unit {0})
      main ⦃nodes⦄ = do
        available ← quietly (λ w. (nodes.numa_available w, w))
        when (is_neg available) (exit 0)
        num_nodes ← quietly (λ w. (nodes.numa_num_configured_nodes w, w))
        when (ltb num_nodes 2) (exit 0)
        test_file

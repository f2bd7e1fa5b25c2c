-- ===== src/Unmapping.antt =====
-- test14.c: munmap() of a whole mapping and of a part of one.
pub mod Patterns
pub mod Verdict
use mitosis_tests.Base.{
  ℕ, zero, suc, ◌+◌, ◌*◌, ◌/◌, not, Option, none, some, ◌==◌, is_neg, is_nonzero,
}
use mitosis_tests.Machine.{
  Program, pure, exit, quietly, ◌>>=◌, ◌>>◌, when, require, either, choose, set_repl, get_repl,
  Replication, mmap, munmap, effect, Memory, read_write, private_anonymous, fixed, fixed_noreplace,
}

abbrev pub page_size : ℕ
page_size = 4096

abbrev pub test_size : ℕ
test_size = 256 * page_size

abbrev pub half : ℕ
half = test_size / 2

module _ {W : Type 0} ⦃mem : Memory W⦄ where
  -- `for (int i = 0; i < TEST_SIZE; i += PAGE_SIZE) memcpy(addr + i, pattern, PAGE_SIZE);` from page `i` on,
  -- where every byte of `pattern` is `v`
  unfoldable pub copy_pattern : ℕ → ℕ → ℕ → ℕ → W → W
  copy_pattern v addr i zero w = w
  copy_pattern v addr i (suc n) w =
      copy_pattern v addr (i + 1) n (mem.memset (addr + i * page_size) v page_size w)

  -- `if (*(unsigned char*)addr != v) { ... return 1; }`
  abbrev pub expect : ℕ → ℕ → Program W (Unit {0})
  expect addr v = do x ← quietly (mem.load addr); when (not (x == v)) (exit 1)

  -- the patterns of the three regions, written and looked at
  unfoldable pub write_regions : ℕ → ℕ → ℕ → Program W (Unit {0})
  write_regions addr1 addr2 addr3 = do
    effect (copy_pattern 0xAA addr1 0 256)
    effect (copy_pattern 0xBB addr2 0 256)
    effect (copy_pattern 0xCC addr3 0 256)
    expect addr1 0xAA
    expect addr2 0xBB
    expect addr3 0xCC

  -- "Unmap middle region"
  unfoldable pub unmap_middle : ℕ → ℕ → ℕ → Program W (Unit {0})
  unmap_middle addr1 addr2 addr3 = do
    ret ← munmap addr2 test_size
    when (is_nonzero ret) (exit 1)
    expect addr1 0xAA
    expect addr3 0xCC

  -- `if (addr_new != MAP_FAILED) { ... }`
  unfoldable pub use_gap : Option ℕ → Program W (Unit {0})
  use_gap none = pure tt
  use_gap (some addr_new) = do effect (mem.memset addr_new 0xDD page_size); expect addr_new 0xDD

  -- "Try to map something new in the gap": the new mapping, if there is one
  unfoldable pub map_gap : ℕ → Program W (Option ℕ)
  unfolding use_gap
  map_gap addr2 = do
    found ← mmap (fixed_noreplace addr2) half read_write
    addr_new ← either found (mmap (fixed addr2) half read_write) (λ a. pure (some a))
    use_gap addr_new
    pure addr_new

  -- "Partial unmap"
  unfoldable pub unmap_half : ℕ → Program W (Unit {0})
  unmap_half addr3 = do
    ret ← munmap (addr3 + half) half
    when (is_nonzero ret) (exit 1)
    expect addr3 0xCC

  -- the patterns and the two calls of munmap(): the mapping in the gap
  unfoldable pub unmap_parts : ℕ → ℕ → ℕ → Program W (Option ℕ)
  unmap_parts addr1 addr2 addr3 = do
    write_regions addr1 addr2 addr3
    unmap_middle addr1 addr2 addr3
    addr_new ← map_gap addr2
    unmap_half addr3
    pure addr_new

  module _ ⦃sys : Replication W⦄ where
    -- from the last look at the replication on
    unfoldable pub finish : ℕ → ℕ → Option ℕ → Program W (Unit {0})
    finish addr1 addr3 addr_new = do
      mask ← get_repl
      when (not (is_nonzero mask)) (exit 1)
      munmap addr1 test_size
      munmap addr3 half
      either addr_new (pure tt) (λ a. do munmap a half; pure tt)
      ret ← set_repl 0
      when (is_neg ret) (exit 1)
      exit 0

    -- from the writing of the patterns on
    unfoldable pub use_regions : ℕ → ℕ → ℕ → Program W (Unit {0})
    use_regions addr1 addr2 addr3 = do
      addr_new ← unmap_parts addr1 addr2 addr3
      finish addr1 addr3 addr_new

    unfoldable pub main : Program W (Unit {0})
    main = do
      ret ← set_repl 1
      when (is_neg ret) (exit 1)
      get_repl
      found ← mmap private_anonymous test_size read_write
      addr1 ← require found (exit 1)
      found ← mmap private_anonymous test_size read_write
      addr2 ← require found (exit 1)
      found ← mmap private_anonymous test_size read_write
      addr3 ← require found (exit 1)
      use_regions addr1 addr2 addr3

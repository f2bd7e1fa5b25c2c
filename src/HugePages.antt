-- ===== src/HugePages.antt =====
-- test22.c: transparent and explicit huge pages while replication is on.
pub mod Patterns
pub mod Verdict
use mitosis_tests.Base.{
  ℕ, zero, suc, ◌+◌, ◌-◌, ◌*◌, ◌%◌, ◌^◌, Bool, true, false, not, ◌&&◌, Option, none, some, ◌==◌,
  is_nonzero,
}
use mitosis_tests.Machine.{
  Program, Quiet, pure, exit, quietly, ◌>>=◌, ◌>>◌, when, require, either, choose, set_repl,
  get_repl, Replication, free, mmap, munmap, effect, Memory, read, read_write, private_huge, Huge,
  posix_memalign,
}
use Prim.Native.Nat.{bit_xor}

abbrev pub huge_page_size : ℕ
huge_page_size = 2 * 1024 * 1024

abbrev pub num_huge_pages : ℕ
num_huge_pages = 4

abbrev pub test_pattern : ℕ
test_pattern = 0xDEADBEEF

-- `TEST_PATTERN + i + more` and `TEST_PATTERN ^ j` as a uint32_t
abbrev pub mark : ℕ → ℕ → ℕ
mark more i = (test_pattern + i + more) % 2 ^ 32

abbrev pub flipped : ℕ → ℕ
flipped j = bit_xor test_pattern j % 2 ^ 32

-- the addresses in huge page `i` at which a mark is written: its start, its word 1024, and its last word
abbrev pub start_of : ℕ → ℕ → ℕ
start_of a i = a + i * huge_page_size

abbrev pub middle_of : ℕ → ℕ → ℕ
middle_of a i = a + i * huge_page_size + 4096

abbrev pub end_of : ℕ → ℕ → ℕ
end_of a i = a + i * huge_page_size + (huge_page_size - 4)

module _ {W : Type 0} ⦃mem : Memory W⦄ where
  -- "Touch pages to trigger allocation", from huge page `i` on
  unfoldable pub write_marks : ℕ → ℕ → ℕ → W → W
  write_marks a i zero w = w
  write_marks a i (suc n) w = write_marks a (i + 1) n (
      mem.store32 (end_of a i) (mark 0x2000 i)
        (mem.store32 (middle_of a i) (mark 0x1000 i) (mem.store32 (start_of a i) (mark 0 i) w)))

  -- "Verify data": every mark is looked at; whether all were right
  unfoldable pub check_marks : ℕ → ℕ → ℕ → Quiet W Bool
  check_marks a i zero w = (true, w)
  check_marks a i (suc n) w =
      let (x, w1) = mem.load32 (start_of a i) w in
      let (y, w2) = mem.load32 (middle_of a i) w1 in
      let (z, w3) = mem.load32 (end_of a i) w2 in
      let (rest, w4) = check_marks a (i + 1) n w3 in
      ((x == mark 0 i) && ((y == mark 0x1000 i) && ((z == mark 0x2000 i) && rest)), w4)

  -- the two loops over the words `ptr[j]` of the explicit huge pages, with `j += 4096` in each round
  unfoldable pub write_flipped : ℕ → ℕ → ℕ → W → W
  write_flipped a j zero w = w
  write_flipped a j (suc n) w = write_flipped a (j + 4096) n (mem.store32 (a + 4 * j) (flipped j) w)

  unfoldable pub check_flipped : ℕ → ℕ → ℕ → Quiet W Bool
  check_flipped a j zero w = (true, w)
  check_flipped a j (suc n) w =
      let (x, w') = mem.load32 (a + 4 * j) w in
      let rest = check_flipped a (j + 4096) n w' in
      elim (x == flipped j) [ true ↦ rest | false ↦ (false, w') ]

  -- "Second test: Explicit huge pages (if available)"
  unfoldable pub use_explicit : Program W Bool
  use_explicit = do
    found ← mmap private_huge (huge_page_size * 2) read_write
    either found (pure true) (λ a. do
      effect (write_flipped a 0 256)
      good ← quietly (check_flipped a 0 256)
      ret ← munmap a (huge_page_size * 2)
      pure (good && not (is_nonzero ret)))

  -- "Test splitting/collapsing with mprotect"
  unfoldable pub split : ℕ → Program W Bool
  split thp_mem = do
    let middle = thp_mem + huge_page_size + 4096
    let last = thp_mem + huge_page_size * 2 - 4
    ret ← quietly (mem.mprotect middle 4096 read)
    choose (is_nonzero ret) (pure false) do
      effect (mem.store32 thp_mem 0x12345678)
      effect (mem.store32 last 0x87654321)
      x ← quietly (mem.load32 thp_mem)
      good ←
          choose (x == 0x12345678) (do y ← quietly (mem.load32 last); pure (y == 0x87654321))
            (pure false)
      ret ← quietly (mem.mprotect middle 4096 read_write)
      pure (good && not (is_nonzero ret))

  -- "Final verification after disable": three loads, whose values are dropped
  unfoldable pub touch_again : ℕ → W → W
  touch_again thp_mem w =
      (mem.load32 (thp_mem + huge_page_size * 2)
        (mem.load32 (thp_mem + huge_page_size) (mem.load32 thp_mem w).1).1).1

  module _ ⦃sys : Replication W⦄ where
    -- from the switching on
    unfoldable pub run : ℕ → Program W (Unit {0})
    run thp_mem = do
      ret ← set_repl 1
      when (is_nonzero ret) (do free thp_mem; exit 1)
      get_repl
      effect (write_marks thp_mem 0 num_huge_pages)
      marked ← quietly (check_marks thp_mem 0 num_huge_pages)
      explicit ← use_explicit
      whole ← split thp_mem
      ret ← set_repl 0
      effect (touch_again thp_mem)
      free thp_mem
      when (marked && (explicit && (whole && not (is_nonzero ret)))) (exit 0)
      exit 1

    unfoldable pub main : ⦃huge : Huge W⦄ → Program W (Unit {0})
    main ⦃huge⦄ = do
      found ← posix_memalign huge_page_size (huge_page_size * num_huge_pages)
      thp_mem ← require found (exit 1)
      quietly (huge.advise_huge thp_mem (huge_page_size * num_huge_pages))
      run thp_mem

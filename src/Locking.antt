-- ===== src/Locking.antt =====
-- test25.c: mlock, mlockall and munlock while replication is on.
pub mod Refused
pub mod Hygiene
use mitosis_tests.Base.{
  ℕ, ◌+◌, ◌*◌, Bool, true, false, not, ◌&&◌, Option, none, some, ltb, ◌==◌, if◌then◌else◌,
  is_nonzero,
}
use mitosis_tests.Machine.{
  memlock, Program, Quiet, pure, exit, quietly, ◌>>=◌, ◌>>◌, when, require, either, choose,
  set_repl, get_repl, Replication, malloc, free, mmap, munmap, effect, Memory, read_write,
  private_anonymous, Limits,
}
use mitosis_tests.Loops.{write_words, agree_bytes, agree_words}
use Prim.Native.Nat.{bit_or}

abbrev pub num_pages : ℕ
num_pages = 32

-- PAGE_SIZE * NUM_PAGES
abbrev pub region_size : ℕ
region_size = 4096 * 32

-- `0xDEAD0000 | i`, and `0xBEEF0000 | i`
abbrev pub locked_word : ℕ → ℕ
locked_word i = bit_or 0xDEAD0000 i

abbrev pub partial_word : ℕ → ℕ
partial_word i = bit_or 0xBEEF0000 i

abbrev is_some : Option ℕ → Bool
is_some none = false
is_some (some _) = true

-- "Check and potentially increase RLIMIT_MEMLOCK"
unfoldable pub raise_limit : {W : Type 0} ⦃limits : Limits W⦄ → Program W (Unit {0})
raise_limit ⦃limits⦄ = do
  found ← quietly (limits.getrlimit memlock)
  either found (pure tt) (λ rlim.
      when (ltb rlim.0 (num_pages * 4096 * 3))
        (do quietly (limits.setrlimit memlock rlim.1 rlim.1); pure tt))

module _ {W : Type 0} ⦃mem : Memory W⦄ where
  -- "Test 1": mlock of region1, then bytes read and words written and read; `pass` after it
  unfoldable pub lock_first : ℕ → Quiet W Bool
  lock_first region1 w =
      let (ret, w1) = mem.mlock region1 region_size w in
      let (kept, w2) = agree_bytes (λ _. 0xAA) region1 0 num_pages w1 in
      let w3 = write_words locked_word region1 0 num_pages w2 in
      let (written, w4) = agree_words locked_word region1 0 num_pages w3 in
      if is_nonzero ret then (true, w1) else (kept && written, w4)

  -- "Test 2": a third region, locked if that can be done
  unfoldable pub lock_third : Program W (Option ℕ)
  lock_third = do
    found ← mmap private_anonymous (4096 * 8) read_write
    either found (pure none) (λ region3. do
      effect (mem.memset region3 0xCC (4096 * 8))
      quietly (mem.mlock region3 (4096 * 8))
      pure (some region3))

  -- "Test 3": mlockall, and a block allocated after it
  unfoldable pub lock_all : Program W Bool
  lock_all = do
    ret ← quietly mem.mlockall
    choose (is_nonzero ret) (pure true) do
      found ← malloc 4096
      either found (pure true) (λ post_lock. do
        effect (mem.memset post_lock 0xDD 4096)
        first ← quietly (mem.load post_lock)
        free post_lock
        pure (first == 0xDD))

  -- "Test 4": munlock of region1
  unfoldable pub unlock_first : ℕ → Quiet W Bool
  unlock_first region1 w =
      let (ret, w1) = mem.munlock region1 region_size w in
      if is_nonzero ret then (true, w1) else agree_words locked_word region1 0 num_pages w1

  -- "Test 5": mlock of the middle of region2
  unfoldable pub lock_middle : ℕ → Quiet W Bool
  lock_middle region2 w =
      let (ret, w1) = mem.mlock (region2 + 4096 * 4) (4096 * 8) w in
      let w2 = write_words partial_word region2 0 num_pages w1 in
      if is_nonzero ret then (true, w1) else agree_words partial_word region2 0 num_pages w2

  -- "Final verification after disable"
  unfoldable pub verify_regions : ℕ → ℕ → Quiet W Bool
  verify_regions region1 region2 w =
      let (first, w1) = agree_words locked_word region1 0 num_pages w in
      let (second, w2) = agree_words partial_word region2 0 num_pages w1 in (first && second, w2)

  -- "Cleanup"
  unfoldable pub unmap_regions : ℕ → ℕ → Option ℕ → Program W (Unit {0})
  unmap_regions region1 region2 region3 = do
    effect mem.munlockall
    munmap region1 region_size
    munmap region2 region_size
    either region3 (pure tt) (λ r. do munmap r (4096 * 8); pure tt)

  module _ ⦃sys : Replication W⦄ where
    -- from the switch-on of replication on
    unfoldable pub locked_part : ℕ → ℕ → Program W (Unit {0})
    locked_part region1 region2 = do
      ret ← set_repl 1
      when (is_nonzero ret) (do munmap region1 region_size; munmap region2 region_size; exit 1)
      get_repl
      pass1 ← quietly (lock_first region1)
      region3 ← lock_third
      pass3 ← lock_all
      pass4 ← quietly (unlock_first region1)
      pass5 ← quietly (lock_middle region2)
      ret ← set_repl 0
      pass6 ← quietly (verify_regions region1 region2)
      unmap_regions region1 region2 region3
      when (pass1 && is_some region3 && pass3 && pass4 && pass5 && not (is_nonzero ret) && pass6)
          (exit 0)
      exit 1

    unfoldable pub main : ⦃limits : Limits W⦄ → Program W (Unit {0})
    main = do
      raise_limit
      found ← mmap private_anonymous region_size read_write
      region1 ← require found (exit 1)
      found ← mmap private_anonymous region_size read_write
      region2 ← require found (do munmap region1 region_size; exit 1)
      effect (mem.memset region1 0xAA region_size)
      effect (mem.memset region2 0xBB region_size)
      locked_part region1 region2

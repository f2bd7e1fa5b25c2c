-- ===== src/Resizing.antt =====
-- test15.c: mappings that mremap() grows, shrinks and moves.
pub mod Verdict
pub mod Losing
use mitosis_tests.Base.{
  ℕ, zero, suc, ◌+◌, ◌-◌, ◌*◌, Bool, true, false, not, ◌==◌, ltb, List, [], ◌∷◌, is_neg, is_nonzero,
}
use mitosis_tests.Machine.{
  Program, Quiet, pure, exit, quietly, ◌>>=◌, ◌>>◌, when, require, either, choose, set_repl,
  get_repl, Replication, mmap, munmap, effect, Memory, no_access, read_write, private_anonymous,
  fixed, mremap, Remapping, stay, may_move, move_to,
}
use mitosis_tests.Loops.{write_bytes}

abbrev pub page_size : ℕ
page_size = 4096

abbrev pub pmd_size : ℕ
pmd_size = 512 * page_size

abbrev pub sizes : List ℕ
sizes = (4 * page_size) ∷ (100 * page_size) ∷ (2 * page_size) ∷ (513 * page_size) ∷ page_size ∷ []

abbrev pub initial : ℕ
initial = 10 * page_size

abbrev pub final : ℕ
final = 3 * pmd_size + 100 * page_size

abbrev pub test_offsets : List ℕ
test_offsets =
    0
    ∷ (pmd_size - page_size)
    ∷ pmd_size
    ∷ (pmd_size + page_size)
    ∷ (2 * pmd_size - page_size)
    ∷ (2 * pmd_size)
    ∷ (2 * pmd_size + page_size)
    ∷ (3 * pmd_size - page_size)
    ∷ (3 * pmd_size)
    ∷ []

-- the sizes of "Test 4"
abbrev pub large : ℕ
large = pmd_size * 2

abbrev pub small : ℕ
small = page_size * 10

module _ {W : Type 0} ⦃mem : Memory W⦄ where
  -- "Write at PMD boundaries"
  unfoldable pub probe_offsets : ℕ → ℕ → List ℕ → Program W (Unit {0})
  probe_offsets a i [] = pure tt
  probe_offsets a i (offset ∷ offsets) = do
    when (ltb offset final) do
      effect (mem.store (a + offset) (0x42 + i))
      x ← quietly (mem.load (a + offset))
      when (not (x == 0x42 + i)) (exit 1)
    probe_offsets a (i + 1) offsets

  -- "Write to expanded region with debug", from page `i` on
  unfoldable pub probe_pages : ℕ → ℕ → ℕ → ℕ → Quiet W Bool
  probe_pages v p i zero w = (true, w)
  probe_pages v p i (suc n) w =
      let (x, w') = mem.load (p + i * page_size) (mem.store (p + i * page_size) v w) in
      let rest = probe_pages v p (i + 1) n w' in elim (x == v) [ true ↦ rest | false ↦ (false, w') ]

  module _ ⦃rem : Remapping W⦄ where
    -- the loop of "Test 1": the last mapping, and its size
    unfoldable pub resize : ℕ → ℕ → ℕ → List ℕ → Program W (ℕ × ℕ)
    resize addr current_size i [] = pure (addr, current_size)
    resize addr current_size i (new_size ∷ rest) = do
      found ← mremap addr current_size new_size may_move
      ptr ← require found (exit 1)
      effect (mem.store ptr i)
      effect (mem.store (ptr + new_size - 1) i)
      first ← quietly (mem.load ptr)
      when (not (first == i)) (exit 1)
      last ← quietly (mem.load (ptr + new_size - 1))
      when (not (last == i)) (exit 1)
      resize ptr new_size (i + 1) rest

    -- "Test 1: Rapid size oscillation"
    unfoldable pub oscillate : Program W (Unit {0})
    oscillate = do
      found ← mmap private_anonymous page_size read_write
      addr ← require found (exit 1)
      (addr, current_size) ← resize addr page_size 0 sizes
      munmap addr current_size
      pure tt

    -- "Test 2: Large expansion crossing multiple PMDs"
    unfoldable pub expand : Program W (Unit {0})
    expand = do
      found ← mmap private_anonymous initial read_write
      addr ← require found (exit 1)
      found ← mremap addr initial final may_move
      addr ← require found (exit 1)
      probe_offsets addr 0 test_offsets
      munmap addr final
      pure tt

    -- "Test 3", from the move on
    unfoldable pub move : ℕ → ℕ → Program W (Unit {0})
    move addr region2 = do
      effect (mem.memset addr 0x33 pmd_size)
      found ← mremap addr pmd_size pmd_size (move_to region2)
      either found (pure tt) (λ new_addr. do
        when (not (new_addr == region2)) (exit 1)
        first ← quietly (mem.load new_addr)
        when (not (first == 0x33)) (exit 1)
        last ← quietly (mem.load (new_addr + pmd_size - 1))
        when (not (last == 0x33)) (exit 1)
        munmap new_addr pmd_size
        pure tt)

    -- "Test 3: mremap with MREMAP_FIXED (force specific addresses)"
    unfoldable pub move_fixed : Program W (Unit {0})
    move_fixed = do
      first ← mmap private_anonymous pmd_size no_access
      second ← mmap private_anonymous pmd_size no_access
      either first (pure tt) (λ region1. either second (pure tt) (λ region2. do
        munmap region1 pmd_size
        munmap region2 pmd_size
        found ← mmap (fixed region1) pmd_size read_write
        either found (pure tt)
            (λ addr. choose (not (addr == region1)) (pure tt) (move addr region2))))

    -- one round of "Test 4"
    unfoldable pub shrink_expand : ℕ → ℕ → Program W ℕ
    shrink_expand addr cycle = do
      effect (write_bytes (λ _. cycle) addr 0 1024)
      found ← mremap addr large small stay
      addr ← require found (exit 1)
      found ← mremap addr small large may_move
      addr ← require found (exit 1)
      x ← quietly (mem.load addr)
      when (not (x == cycle)) (exit 1)
      good ← quietly (probe_pages (cycle + 0x80) addr 10 1014)
      when (not good) (exit 1)
      pure addr

    -- its rounds from `cycle` on
    unfoldable pub cycles : ℕ → ℕ → ℕ → Program W ℕ
    cycles addr cycle zero = pure addr
    cycles addr cycle (suc n) = do addr ← shrink_expand addr cycle; cycles addr (cycle + 1) n

    -- "Test 4: Rapid shrink/expand cycles"
    unfoldable pub shrink_expand_cycles : Program W (Unit {0})
    shrink_expand_cycles = do
      found ← mmap private_anonymous large read_write
      addr ← require found (exit 1)
      addr ← cycles addr 0 5
      munmap addr large
      pure tt

    -- "Test 5: Testing error handling with bad parameters"
    unfoldable pub unaligned : Program W (Unit {0})
    unaligned = do
      found ← mmap private_anonymous small read_write
      either found (pure tt) (λ addr. do
        found ← mremap addr small (small + 1) may_move
        either found (do munmap addr small; pure tt)
            (λ new_addr. do munmap new_addr (page_size * 11); pure tt))

    module _ ⦃sys : Replication W⦄ where
      -- from "Final check" on
      unfoldable pub finish : Program W (Unit {0})
      finish = do
        mask ← get_repl
        when (not (is_nonzero mask)) (exit 1)
        ret ← set_repl 0
        when (is_neg ret) (exit 1)
        exit 0

      unfoldable pub main : Program W (Unit {0})
      main = do
        ret ← set_repl 1
        when (is_neg ret) (exit 1)
        get_repl
        oscillate
        expand
        move_fixed
        shrink_expand_cycles
        unaligned
        finish

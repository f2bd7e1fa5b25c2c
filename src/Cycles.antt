-- ===== src/Cycles.antt =====
-- test11.c: replication is switched on and off five times, with ten pages in use each time.
pub mod Hygiene
use mitosis_tests.Base.{
  ℕ, zero, suc, ◌+◌, ◌-◌, ◌*◌, ◌%◌, Bool, true, false, not, List, [], ◌∷◌, reverse, ◌==◌, is_neg,
  is_nonzero, is_positive,
}
use mitosis_tests.Machine.{
  Program, Quiet, pure, exit, quietly, ◌>>=◌, ◌>>◌, when, require, set_repl, get_repl, disable,
  Replication, mmap, munmap, effect, Memory, read_write, private_anonymous, Tasks,
}
use Prim.Native.Nat.{◌-◌}

abbrev pub num_cycles : ℕ
num_cycles = 5

abbrev pub num_allocations : ℕ
num_allocations = 10

-- `(cycle * NUM_ALLOCATIONS + i) % 256`, and `~pattern` as a byte
unfoldable pub pattern_of : ℕ → ℕ → ℕ
pattern_of cycle i = (cycle * num_allocations + i) % 256

unfoldable pub complement : ℕ → ℕ
complement v = 255 - v

module _ {W : Type 0} ⦃mem : Memory W⦄ where
  -- `munmap(allocations[i], 4096);` over a list of pages
  unfoldable pub unmap_all : List ℕ → Program W (Unit {0})
  unmap_all [] = pure tt
  unmap_all (a ∷ l) = do munmap a 4096; unmap_all l

  -- The pattern at the start, the middle and the end of every page; a mismatch leaves the loop.
  unfoldable pub check_patterns : ℕ → ℕ → List ℕ → Quiet W Bool
  check_patterns cycle i [] w = (true, w)
  check_patterns cycle i (a ∷ l) w =
      let v = pattern_of cycle i in
      let (x, w1) = mem.load a w in
      let (y, w2) = mem.load (a + 2048) w1 in
      let (z, w3) = mem.load (a + 4095) w2 in
      let rest = check_patterns cycle (i + 1) l w3 in
      elim (x == v) [
        | false ↦ (false, w1)
        | true ↦ elim (y == v) [
          | false ↦ (false, w2)
          | true ↦ elim (z == v) [ false ↦ (false, w3) | true ↦ rest ]
        ]
      ]

  -- After the switch-off: the old pattern is there, and its complement can be written.
  unfoldable pub rewrite_patterns : ℕ → ℕ → List ℕ → Quiet W Bool
  rewrite_patterns cycle i [] w = (true, w)
  rewrite_patterns cycle i (a ∷ l) w =
      let v = pattern_of cycle i in
      let (x, w1) = mem.load a w in
      let w2 = mem.memset a (complement v) 4096 w1 in
      let (y, w3) = mem.load a w2 in
      let rest = rewrite_patterns cycle (i + 1) l w3 in
      elim (x == v) [
        | false ↦ (false, w1)
        | true ↦ elim (y == complement v) [ false ↦ (false, w3) | true ↦ rest ]
      ]

  module _ ⦃sys : Replication W⦄ where
    -- The loop that maps the pages, the ones it has first in `before`, the last one first.
    unfoldable pub map_pages : ℕ → ℕ → ℕ → List ℕ → Program W (List ℕ)
    map_pages cycle i zero before = pure (reverse before)
    map_pages cycle i (suc n) before = do
      found ← mmap private_anonymous 4096 read_write
      a ← require found (do unmap_all before; disable; exit 1)
      effect (mem.memset a (pattern_of cycle i) 4096)
      map_pages cycle (i + 1) n (a ∷ before)

    unfoldable pub use_pages : ℕ → List ℕ → Program W (Unit {0})
    use_pages cycle pages = do
      good ← quietly (check_patterns cycle 0 pages)
      when (not good) (do unmap_all pages; disable; exit 1)
      ret ← set_repl 0
      when (is_neg ret) (do unmap_all pages; exit 1)
      ret ← get_repl
      when (is_nonzero ret) (do unmap_all pages; exit 1)
      good ← quietly (rewrite_patterns cycle 0 pages)
      when (not good) (do unmap_all pages; exit 1)
      unmap_all pages

    unfoldable pub one_cycle : ℕ → Program W (Unit {0})
    one_cycle cycle = do
      ret ← set_repl 1
      when (is_neg ret) (exit 1)
      ret ← get_repl
      when (not (is_positive ret)) (exit 1)
      pages ← map_pages cycle 0 num_allocations []
      use_pages cycle pages

    module _ ⦃tasks : Tasks W⦄ where
      unfoldable pub cycles : ℕ → ℕ → Program W (Unit {0})
      cycles cycle zero = pure tt
      cycles cycle (suc n) = do one_cycle cycle; effect (tasks.usleep 10000); cycles (cycle + 1) n

      unfoldable pub main : Program W (Unit {0})
      main = do
        cycles 0 num_cycles
        ret ← set_repl 1
        when (is_neg ret) (exit 1)
        ret ← get_repl
        when (not (is_positive ret)) (exit 1)
        disable
        exit 0

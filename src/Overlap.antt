-- ===== src/Overlap.antt =====
-- test17.c: MAP_FIXED over a mapping that is in use.
pub mod Hygiene
pub mod Verdict
use mitosis_tests.Base.{ℕ, ◌+◌, ◌*◌, ◌/◌, Bool, false, not, Option, is_neg}
use mitosis_tests.Machine.{
  Program, pure, exit, quietly, ◌>>=◌, ◌>>◌, when, require, either, choose, set_repl, get_repl,
  disable, Replication, mmap, munmap, effect, Memory, read_write, private_anonymous, fixed,
}
use mitosis_tests.Loops.{paint, is_painted}

abbrev pub map_size : ℕ
map_size = 2 * 1024 * 1024

abbrev pub pattern1 : ℕ
pattern1 = 0xAA

abbrev pub pattern2 : ℕ
pattern2 = 0xBB

abbrev pub pattern3 : ℕ
pattern3 = 0xCC

abbrev fail : {W : Type 0} → Program W Bool
fail = pure false

-- A mapping that lands on one which this process unmaps as a whole is no new obligation.
abbrev remap : {W : Type 0} ⦃mem : Memory W⦄ → ℕ → ℕ → Program W (Option ℕ)
remap ⦃mem⦄ a n = quietly (mem.mmap (fixed a) n read_write)

module _ {W : Type 0} ⦃mem : Memory W⦄ where
  -- the MAP_FIXED that replaces everything
  unfoldable pub replace_all : ℕ → Program W Bool
  replace_all ptr1 = do
    found ← remap ptr1 (map_size * 2)
    either found fail (λ ptr3. do
      effect (paint ptr3 pattern3 (map_size * 2))
      quietly (is_painted ptr3 pattern3 (map_size * 2)))

  -- from the MAP_FIXED over the middle up to the label `cleanup`
  unfoldable pub replace_middle : ℕ → Program W Bool
  unfolding replace_all
  replace_middle ptr1 = do
    found ← remap (ptr1 + map_size / 2) map_size
    either found fail (λ ptr2. do
      effect (paint ptr2 pattern2 map_size)
      good ← quietly (is_painted ptr1 pattern1 (map_size / 2))
      choose (not good) fail do
        good ← quietly (is_painted (ptr1 + map_size / 2) pattern2 map_size)
        choose (not good) fail do
          good ← quietly (is_painted (ptr1 + map_size / 2 + map_size) pattern1 (map_size / 2))
          choose (not good) fail (replace_all ptr1))

  unfoldable pub body : ℕ → Program W Bool
  unfolding replace_middle
  body ptr1 = do
    effect (paint ptr1 pattern1 (map_size * 2))
    good ← quietly (is_painted ptr1 pattern1 (map_size * 2))
    choose (not good) fail (replace_middle ptr1)

  module _ ⦃sys : Replication W⦄ where
    unfoldable pub main : Program W (Unit {0})
    main = do
      ret ← set_repl 1
      when (is_neg ret) (exit 1)
      get_repl
      found ← mmap private_anonymous (map_size * 2) read_write
      ptr1 ← require found (exit 1)
      test_passed ← body ptr1
      munmap ptr1 (map_size * 2)
      disable
      when test_passed (exit 0)
      exit 1

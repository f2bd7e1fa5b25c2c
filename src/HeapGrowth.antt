-- ===== src/HeapGrowth.antt =====
-- test12.c: a heap that grows by sbrk() and brk().
pub mod Verdict
use mitosis_tests.Base.{
  ℕ, ◌+◌, ◌-◌, ◌*◌, ◌%◌, ◌^◌, Option, none, some, not, List, [], ◌∷◌, ◌==◌, is_neg, is_nonzero,
  is_positive,
}
use mitosis_tests.Machine.{
  Program, exit, quietly, ◌>>=◌, ◌>>◌, when, require, set_repl, get_repl, disable, Replication,
  malloc, free, effect, Memory, Heap, sbrk, brk, pure,
}
use mitosis_tests.Loops.{fill_initial, check_initial, copy_text, same_text}

abbrev pub small_size : ℕ
small_size = 4096

abbrev pub big_size : ℕ
big_size = 4096 * 10

-- "MallocTest", with the byte that ends a string
abbrev pub malloc_test : List ℕ
malloc_test = b'M' ∷ b'a' ∷ b'l' ∷ b'l' ∷ b'o' ∷ b'c' ∷ b'T' ∷ b'e' ∷ b's' ∷ b't' ∷ 0 ∷ []

-- (void *)-1 where the call fails
abbrev pub address : Option ℕ → ℕ
address none = 2 ^ 64 - 1
address (some a) = a

module _ {W : Type 0} ⦃mem : Memory W⦄ ⦃sys : Replication W⦄ where
  module _ ⦃heap : Heap W⦄ where
    -- "Test 1" and "Test 2"
    unfoldable pub expand : Program W (Unit {0})
    expand = do
      found ← sbrk small_size
      heap_ptr ← require found (do disable; exit 1)
      effect (fill_initial heap_ptr 0 small_size)
      good ← quietly (check_initial heap_ptr 0 small_size)
      when (not good) (do disable; exit 1)
      found ← sbrk big_size
      heap_ptr ← require found (do disable; exit 1)
      effect (mem.memset heap_ptr b'X' big_size)
      effect (mem.store heap_ptr b'S')
      effect (mem.store (heap_ptr + big_size - 1) b'E')
      first ← quietly (mem.load heap_ptr)
      when (not (first == b'S')) (do disable; exit 1)
      last ← quietly (mem.load (heap_ptr + big_size - 1))
      when (not (last == b'E')) (do disable; exit 1)

    -- "Test 3" and "Test 4", where the result of sbrk(0) is not checked
    unfoldable pub set_end : Program W (Unit {0})
    set_end = do
      found ← sbrk 0
      let new_brk = (address found + 4096) % 2 ^ 64
      ret ← brk new_brk
      when (is_nonzero ret) (do disable; exit 1)
      current_brk ← sbrk 0
      when (not (address current_brk == new_brk)) (do disable; exit 1)
      ret ← brk ((address current_brk + (2 ^ 64 - 4096)) % 2 ^ 64)
      when (not (is_nonzero ret)) (do sbrk 0; pure tt)

  -- "Test 5"
  unfoldable pub use_malloc : Program W (Unit {0})
  use_malloc = do
    found ← malloc 1024
    malloc_ptr ← require found (do disable; exit 1)
    effect (copy_text malloc_ptr malloc_test)
    same ← quietly (same_text malloc_ptr malloc_test)
    when (not same) (do free malloc_ptr; disable; exit 1)
    free malloc_ptr

  unfoldable pub main : ⦃heap : Heap W⦄ → Program W (Unit {0})
  main = do
    found ← sbrk 0
    require found (exit 1)
    ret ← set_repl 1
    when (is_neg ret) (exit 1)
    expand
    set_end
    use_malloc
    sbrk 0
    ret ← get_repl
    when (not (is_positive ret)) (exit 1)
    disable
    exit 0

-- ===== src/RegionKinds.antt =====
-- test28.c: stack, heap and mapped memory under replication.
pub mod Hygiene
pub mod Numbers
use mitosis_tests.Base.{
  ℕ, zero, suc, ◌+◌, ◌-◌, ◌*◌, Bool, true, false, not, List, [], ◌∷◌, ltb, ◌==◌, ◌!=◌, is_neg,
  is_nonzero,
}
use mitosis_tests.Machine.{
  Program, Quiet, pure, exit, quietly, ◌>>=◌, ◌>>◌, when, either, choose, set_repl, get_repl,
  disable, Replication, malloc, calloc, free, mmap, munmap, effect, Memory, read_write,
  private_anonymous, private_populate, Nodes,
}
use mitosis_tests.Loops.{verify_bytes}

-- 16 * 4096
abbrev pub map_size : ℕ
map_size = 65536

abbrev pub sizes : List ℕ
sizes = 64 ∷ 1024 ∷ 4096 ∷ 65536 ∷ 1048576 ∷ []

module _ {W : Type 0} ⦃mem : Memory W⦄ where
  -- `!(p[0] != v || p[n-1] != v)`, which reads the last byte only if the first is right
  unfoldable pub ends_hold : ℕ → ℕ → ℕ → Quiet W Bool
  ends_hold v a n w =
      let (x, w1) = mem.load a w in
      let last = mem.load (a + n - 1) w1 in
      elim (x == v) [ true ↦ (last.0 == v, last.1) | false ↦ (false, w1) ]

  -- `for (i = 0; i < sizeof(stack_buffer); i += 1024) if (stack_buffer[i] != (char)0xAA) <leave>`
  unfoldable pub verify_kilobytes : ℕ → ℕ → Quiet W Bool
  verify_kilobytes a zero w = (true, w)
  verify_kilobytes a (suc n) w =
      let (x, w') = mem.load a w in
      let rest = verify_kilobytes (a + 1024) n w' in
      elim (x == 0xAA) [ true ↦ rest | false ↦ (false, w') ]

  -- `if (zeroed[i] != 0) <leave>; zeroed[i] = i;` from `i` on
  unfoldable pub number_words : ℕ → ℕ → ℕ → Quiet W Bool
  number_words a i zero w = (true, w)
  number_words a i (suc n) w =
      let (x, w') = mem.load32 (a + 4 * i) w in
      let rest = number_words a (i + 1) n (mem.store32 (a + 4 * i) i w') in
      elim (x == 0) [ true ↦ rest | false ↦ (false, w') ]

  -- `if (zeroed[i] != i) <leave>;` from `i` on
  unfoldable pub verify_numbers : ℕ → ℕ → ℕ → Quiet W Bool
  verify_numbers a i zero w = (true, w)
  verify_numbers a i (suc n) w =
      let (x, w') = mem.load32 (a + 4 * i) w in
      let rest = verify_numbers a (i + 1) n w' in
      elim (x == i) [ true ↦ rest | false ↦ (false, w') ]

  -- The arrays `stack_buffer` and `dynamic_stack` are addresses.
  unfoldable pub test_stack_memory : ℕ → ℕ → Program W ℕ
  test_stack_memory stack_buffer dynamic_stack = do
    effect (mem.memset stack_buffer 0xAA 8192)
    good ← quietly (verify_kilobytes stack_buffer 8)
    choose (not good) (pure 1) do
      effect (mem.memset dynamic_stack 0xBB 4096)
      good ← quietly (ends_hold 0xBB dynamic_stack 4096)
      choose (not good) (pure 1) (pure 0)

  -- the loop over `sizes`, from `i` on
  unfoldable pub heap_sizes : ℕ → List ℕ → Program W ℕ
  heap_sizes i [] = pure 0
  heap_sizes i (size ∷ l) = do
    found ← malloc size
    either found (pure 1) (λ ptr. do
      effect (mem.memset ptr (0xCC + i) size)
      good ← quietly (ends_hold (0xCC + i) ptr size)
      choose (not good) (do free ptr; pure 1) (do free ptr; heap_sizes (i + 1) l))

  unfoldable pub test_heap_memory : Program W ℕ
  test_heap_memory = do
    failed ← heap_sizes 0 sizes
    choose (failed != 0) (pure 1) do
      found ← calloc 1024 4
      either found (pure 1) (λ zeroed. do
        good ← quietly (number_words zeroed 0 1024)
        choose (not good) (do free zeroed; pure 1)
            do
              good ← quietly (verify_numbers zeroed 0 1024)
              choose (not good) (do free zeroed; pure 1) (do free zeroed; pure 0))

  unfoldable pub test_mmap_memory : Program W ℕ
  test_mmap_memory = do
    found ← mmap private_anonymous map_size read_write
    either found (pure 1) (λ map1. do
      effect (mem.memset map1 0xDD map_size)
      good ← quietly (verify_bytes (λ _. 0xDD) map1 0 16)
      choose (not good) (do munmap map1 map_size; pure 1)
          do
            found ← mmap private_populate map_size read_write
            either found (do munmap map1 map_size; pure 0)
                (λ map2. do
                  effect (mem.memset map2 0xEE map_size)
                  good ← quietly (ends_hold 0xEE map2 map_size)
                  choose (not good) (do munmap map1 map_size; munmap map2 map_size; pure 1)
                      (do munmap map2 map_size; munmap map1 map_size; pure 0)))

  module _ ⦃sys : Replication W⦄ where
    unfoldable pub tests : ℕ → ℕ → Program W (Unit {0})
    tests stack_buffer dynamic_stack = do
      failed ← test_stack_memory stack_buffer dynamic_stack
      when (failed != 0) (do disable; exit 1)
      failed ← test_heap_memory
      when (failed != 0) (do disable; exit 1)
      failed ← test_mmap_memory
      when (failed != 0) (do disable; exit 1)
      repl_status ← get_repl
      when (not (is_nonzero repl_status)) (do disable; exit 1)
      disable
      exit 0

    unfoldable pub main : ⦃nodes : Nodes W⦄ → ℕ → ℕ → Program W (Unit {0})
    main ⦃nodes⦄ stack_buffer dynamic_stack = do
      available ← quietly (λ w. (nodes.numa_available w, w))
      when (is_neg available) (exit 0)
      num_nodes ← quietly (λ w. (nodes.numa_num_configured_nodes w, w))
      when (ltb num_nodes 2) (exit 0)
      ret ← set_repl 1
      when (is_neg ret) (exit 1)
      repl_status ← get_repl
      when (not (is_nonzero repl_status)) (exit 1)
      tests stack_buffer dynamic_stack

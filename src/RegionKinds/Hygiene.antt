-- ===== src/RegionKinds/Hygiene.antt =====
-- What test28.c leaves behind.
use mitosis_tests.Base.{ℕ, ◌+◌, ◌≡◌, ◌&&◌, false, List, [], ◌∷◌, is_nonzero, arith}
use mitosis_tests.Machine.{
  set, get, file, pr_set_pgtable_repl, pr_get_pgtable_repl, armed, IsSettled, Resource, calls,
  start, Owes, Process, Outcome, ok, ended, Replication, Memory, Nodes,
}
use mitosis_tests.RegionKinds.{
  test_stack_memory, heap_sizes, sizes, test_heap_memory, test_mmap_memory, tests, main,
}

-- A part that gives back what it takes and does not end the process.
abbrev Tidy : {W : Type 0} → Resource → Outcome ℕ × Process W → Type 0
Tidy r (ok a, s) = Owes r 0 s
Tidy r (ended n, s) = ⊥

module _ {W : Type 0} ⦃mem : Memory W⦄ (r : Resource) where
  test_stack_memory-Tidy : (a b : ℕ) (s : Process W) → Owes r 0 s → Tidy r (test_stack_memory a b s)
  unfolding test_stack_memory
  test_stack_memory-Tidy a b s h = ground arith

  heap_sizes-Tidy : (i : ℕ) (l : List ℕ) (s : Process W) → Owes r 0 s → Tidy r (heap_sizes i l s)
  unfolding heap_sizes
  heap_sizes-Tidy i [] s h = h
  heap_sizes-Tidy i (size ∷ l) s h = grind (arith, heap_sizes-Tidy (i + 1) l)

  test_heap_memory-Tidy : (s : Process W) → Owes r 0 s → Tidy r (test_heap_memory s)
  unfolding test_heap_memory
  test_heap_memory-Tidy s h = ground (arith, heap_sizes-Tidy 0 sizes s h)

  test_mmap_memory-Tidy : (s : Process W) → Owes r 0 s → Tidy r (test_mmap_memory s)
  unfolding test_mmap_memory
  test_mmap_memory-Tidy s h = ground arith

  tests_lem :
      ⦃sys : Replication W⦄ (a b : ℕ) (s : Process W)
      → Owes r 0 s
      → Owes r 0 (tests a b s).1 × (armed (tests a b s).1.trace ≡ false)
  unfolding tests
  tests_lem a b s h =
      let s1 = (test_stack_memory a b s).1 in
      let s2 = (test_heap_memory s1).1 in
      ground
        (arith, test_stack_memory-Tidy a b s h, test_heap_memory-Tidy s1, test_mmap_memory-Tidy s2)

module _ {W : Type 0} ⦃mem : Memory W⦄ ⦃sys : Replication W⦄ ⦃nodes : Nodes W⦄
    (stack_buffer dynamic_stack : ℕ) where
  -- Whatever the system answers, test28.c ends with every mapping and every block given back as often as
  -- it was taken, and with replication switched on, not asked to be off since, only if its first GET
  -- answered 0.
  pub regions-IsSettled :
      (w : W)
      → let t = calls (main stack_buffer dynamic_stack) (start w) in
        let (mask, _) = sys.prctl pr_get_pgtable_repl 0 (sys.prctl pr_set_pgtable_repl 1 w).1 in
        IsSettled t × ((armed t && is_nonzero mask) ≡ false)
  unfolding main
  regions-IsSettled w =
      let (a1, w1) = sys.prctl pr_set_pgtable_repl 1 w in
      let (a2, w2) = sys.prctl pr_get_pgtable_repl 0 w1 in
      let s : Process W = record { env = w2; trace = get a2 ∷ set 1 a1 ∷ [] } in
      (λ r. grind (arith, tests_lem r), ground (arith, tests_lem file stack_buffer dynamic_stack s))

-- ===== src/Examples/Stack.antt =====
-- test12.c and test13.c on the small machine.
use mitosis_tests.Base.{ℕ, ◌≡◌, ◌+◌, ◌*◌, refl, true, some, arith, List}
use mitosis_tests.Machine.{Event, Outcome, ok, ended, Process, status, calls, start}
use mitosis_tests.Examples.Kernel.{
  Demo, off, steady, memory, demo-Fills, demo_memory, demo_heap, demo_limits,
}
use mitosis_tests.HeapGrowth
use mitosis_tests.Loops.{copy_text, fill_initial}
use mitosis_tests.Loops.Texts.{same_text-true, copy_text-Holds, fill_initial-at, check_initial-true}
use mitosis_tests.HeapGrowth.Verdict.{Ends, is_served, heap_growth-passes}
use mitosis_tests.StackGrowth.{Stack, main}
use mitosis_tests.StackGrowth.Verdict.{
  is_granted, small_arrays-GoesOn, large_arrays-GoesOn, stack_growth-passes,
}

-- The arrays of test13.c, one above the other.
abbrev stack : Stack
stack = record {
  frame = λ depth. 65536 + 4096 * depth;
  bottom = 61440;
  stack_buffer = 524288;
  stack_var = some 516096;
  vla_buffer = 532480;
  large_var = some 540672;
}

granted : is_granted (calls (main ⦃sys = steady⦄ stack) (start off)) ≡ true
unfolding main
granted =
    let small = λ (s : Process Demo).
      small_arrays-GoesOn memory demo-Fills ⦃sys = steady⦄ stack 516096 s refl in
    grind (arith, small, large_arrays-GoesOn memory demo-Fills ⦃sys = steady⦄ stack)

stack_growth-passes_example : status (main ⦃sys = steady⦄ stack) (start off) ≡ 0
stack_growth-passes_example =
    stack_growth-passes memory demo-Fills ⦃sys = steady⦄ (λ w. ((64, 128), refl)) stack 516096 off
      refl granted

demo-Ends : Ends demo_heap
demo-Ends a b w h granted answered = ground arith

-- A part that goes on, without a call that the trace shows.
abbrev GoesOn : List Event → Outcome (Unit {0}) × Process Demo → Type 0
GoesOn t (ok a, s) = s.trace ≡ t
GoesOn t (ended n, s) = ⊥

expand-GoesOn : (s : Process Demo) → GoesOn s.trace (HeapGrowth.expand ⦃sys = steady⦄ s)
unfolding HeapGrowth.expand
expand-GoesOn s =
    let a = s.env.next in
    let w1 = (demo_heap.sbrk 4096 s.env).1 in
    let w2 = fill_initial a 0 4096 w1 in
    let good =
      check_initial-true memory a 0 4096 w2
        (λ k le lt. fill_initial-at memory a 0 4096 k w1 le lt) in
    ground (arith, good)

set_end-GoesOn : (s : Process Demo) → GoesOn s.trace (HeapGrowth.set_end ⦃sys = steady⦄ s)
unfolding HeapGrowth.set_end
set_end-GoesOn s = ground arith

served : is_served (calls (HeapGrowth.main ⦃sys = steady⦄) (start off)) ≡ true
unfolding HeapGrowth.main HeapGrowth.use_malloc
served =
    let texts = λ (a : ℕ) (w : Demo).
      same_text-true memory a HeapGrowth.malloc_test (copy_text a HeapGrowth.malloc_test w)
        (copy_text-Holds memory a HeapGrowth.malloc_test w refl) in
    grind (arith, texts, expand-GoesOn, set_end-GoesOn)

heap_growth-passes_example : status (HeapGrowth.main ⦃sys = steady⦄) (start off) ≡ 0
heap_growth-passes_example =
    heap_growth-passes memory demo-Fills ⦃sys = steady⦄ demo-Ends off served

-- ===== src/Examples/Resizes.antt =====
-- test15.c on the small machine, with two ways to move a mapping.
use mitosis_tests.Base.{
  ℕ, zero, suc, ◌+◌, ◌-◌, ◌≡◌, true, some, List, [], ◌∷◌, ltb, leb, ◌==◌, arith, if◌then◌else◌,
}
use mitosis_tests.Machine.{Process, Remapping, Move, move_to, Moves, status, calls, start}
use mitosis_tests.Resizing.{
  page_size, sizes, test_offsets, probe_offsets, resize, oscillate, expand, move, move_fixed,
  shrink_expand, cycles, shrink_expand_cycles, unaligned, finish, main,
}
use mitosis_tests.Resizing.Verdict.{is_granted, resizing-passes}
use mitosis_tests.Resizing.Losing.{resizing-rejects_lost}
use mitosis_tests.Examples.Kernel.{Demo, off, steady, memory, demo-Fills, demo_memory}

-- Mappings stay where they are, or go where they are asked to.
abbrev place : ℕ → Move → ℕ
place a (move_to c) = c
place a _ = a

abbrev carried : ℕ → ℕ → ℕ → (ℕ → ℕ) → ℕ → ℕ
carried a b n f x = if leb b x then (if ltb x (b + n) then f (a + (x - b)) else f x) else f x

abbrev moving : Remapping Demo
moving = record {
  mremap =
      λ a old new m d. (some (place a m), record d { byte = carried a (place a m) new d.byte });
}

-- The first byte is lost.
abbrev losing : Remapping Demo
losing = record {
  mremap = λ a old new m d.
      (some (place a m), record d { byte = λ x. if x == place a m then 0 else d.byte x });
}

moving-Moves : Moves moving (λ d. d.byte)
moving-Moves = record {
  moved_byte = λ a old new m b k d e lt lt'. ground arith;
  moved_to = λ a old new c b d e. ground arith;
}

-- On this machine no request is refused.
abbrev Granted : {A : Type 0} → A × Process Demo → Type 0
Granted (a, s) = is_granted s.trace ≡ true

probe_offsets-Granted :
    (a i : ℕ) (offsets : List ℕ) (s : Process Demo)
    → is_granted s.trace ≡ true
    → Granted (probe_offsets a i offsets s)
unfolding probe_offsets
probe_offsets-Granted a i [] s h = h
probe_offsets-Granted a i (offset ∷ offsets) s h =
    grind (arith, probe_offsets-Granted a (i + 1) offsets)

resize-Granted :
    (a size i : ℕ) (rest : List ℕ) (s : Process Demo)
    → is_granted s.trace ≡ true
    → Granted (resize ⦃rem = moving⦄ a size i rest s)
unfolding resize
resize-Granted a size i [] s h = h
resize-Granted a size i (n ∷ rest) s h = grind (arith, resize-Granted a n (i + 1) rest)

shrink_expand-Granted :
    (a cycle : ℕ) (s : Process Demo)
    → is_granted s.trace ≡ true
    → Granted (shrink_expand ⦃rem = moving⦄ a cycle s)
unfolding shrink_expand
shrink_expand-Granted a cycle s h = ground arith

cycles-Granted :
    (a cycle n : ℕ) (s : Process Demo)
    → is_granted s.trace ≡ true
    → Granted (cycles ⦃rem = moving⦄ a cycle n s)
unfolding cycles
cycles-Granted a cycle zero s h = h
cycles-Granted a cycle (suc n) s h =
    let rest = λ (b : ℕ) (s' : Process Demo). cycles-Granted b (cycle + 1) n s' in
    grind (arith, shrink_expand-Granted a cycle s h, rest)

granted : is_granted (calls (main ⦃rem = moving⦄ ⦃sys = steady⦄) (start off)) ≡ true
unfolding main oscillate expand move_fixed move shrink_expand_cycles unaligned finish
granted =
    let shrunk = λ (a : ℕ) (s : Process Demo). cycles-Granted a 0 5 s in
    let resized = λ (a : ℕ) (s : Process Demo). resize-Granted a page_size 0 sizes s in
    let probed = λ (a : ℕ) (s : Process Demo). probe_offsets-Granted a 0 test_offsets s in
    grind (arith, resized, probed, shrunk)

resizing-passes_example : status (main ⦃rem = moving⦄ ⦃sys = steady⦄) (start off) ≡ 0
resizing-passes_example =
    resizing-passes memory ⦃rem = moving⦄ demo-Fills moving-Moves ⦃sys = steady⦄ off granted

resizing-rejects_lost_example : status (main ⦃rem = losing⦄ ⦃sys = steady⦄) (start off) ≡ 1
resizing-rejects_lost_example =
    resizing-rejects_lost ⦃rem = losing⦄ memory (λ a old new b d e. ground arith) ⦃sys = steady⦄ off

-- ===== src/StackGrowth/Verdict.antt =====
-- What the verdict of test13.c is on a stack that keeps what is written.
use mitosis_tests.Base.{
  ℕ, zero, suc, ◌+◌, ◌-◌, ◌%◌, ◌<◌, ◌≡◌, refl, Bool, not, ◌&&◌, true, some, inl, inr, Option-cases,
  List, [], ◌∷◌, arith, is_neg, is_positive, pos,
}
use mitosis_tests.Machine.{
  Process, Event, get, calls, status, start, ok, ended, Outcome, set, Replication, Memory, Limits,
  stack_size, Remembers, Fills,
}
use mitosis_tests.Loops.{is_painted, copy_text, same_text, fill_initial, check_initial}
use mitosis_tests.Loops.Texts.{same_text-true, copy_text-Holds, fill_initial-at, check_initial-true}
use mitosis_tests.Loops.Bytes.{is_painted-true}
use mitosis_tests.StackGrowth.{
  Stack, stack_bottom, alloca_test, large_size, stack_depth, recursive_stack_test, small_arrays,
  large_arrays, main,
}

-- No SET answered an error, and every GET a positive mask.
abbrev pub is_granted : List Event → Bool
is_granted [] = true
is_granted (set n a ∷ t) = not (is_neg a) && is_granted t
is_granted (get a ∷ t) = is_positive a && is_granted t
is_granted (_ ∷ t) = is_granted t

module _ {W : Type 0} ⦃mem : Memory W⦄ {byte word : W → ℕ → ℕ} (r : Remembers mem byte word) where
  module _ (fills : Fills mem byte) where
    recursive_stack_test-zero :
        (stack : Stack) (depth pattern : ℕ) (w : W)
        → pattern < 256
        → (recursive_stack_test stack depth pattern w).0 ≡ pos 0
    unfolding recursive_stack_test
    recursive_stack_test-zero stack zero pattern w small =
        let a = stack.frame zero in
        let w1 = mem.memset a pattern 4096 w in
        let w2 = (is_painted a pattern 4096 w1).1 in
        let painted =
          is_painted-true r a pattern 4096 w1
            (λ b le lt. fills.filled a pattern 4096 b w small le lt) in
        let held = copy_text-Holds r stack.bottom stack_bottom w2 refl in
        let same =
          same_text-true r stack.bottom stack_bottom (copy_text stack.bottom stack_bottom w2)
            held in
        rw (recursive_stack_test, painted, same) refl
    recursive_stack_test-zero stack (suc depth) pattern w small =
        let a = stack.frame (suc depth) in
        let w1 = mem.memset a pattern 4096 w in
        let w2 = (is_painted a pattern 4096 w1).1 in
        let painted =
          is_painted-true r a pattern 4096 w1
            (λ b le lt. fills.filled a pattern 4096 b w small le lt) in
        rw (recursive_stack_test, painted)
          (recursive_stack_test-zero stack depth ((pattern + 1) % 256) w2 (omega arith))

    module _ ⦃sys : Replication W⦄ where
      -- A part that goes on, without a call that the trace shows.
      abbrev pub GoesOn : List Event → Outcome (Unit {0}) × Process W → Type 0
      GoesOn t (ok a, s) = s.trace ≡ t
      GoesOn t (ended n, s) = ⊥

      pub large_arrays-GoesOn :
          (stack : Stack) (s : Process W) → GoesOn s.trace (large_arrays stack s)
      unfolding large_arrays
      large_arrays-GoesOn stack s =
          let vla = stack.vla_buffer in
          let w1 = fill_initial vla 0 1024 s.env in
          let good =
            check_initial-true r vla 0 1024 w1
              (λ k le lt. fill_initial-at r vla 0 1024 k s.env le lt) in
          let w2 = (check_initial vla 0 1024 w1).1 in
          elim (Option-cases stack.large_var) [
            | inl none_given ↦ ground (arith, good, none_given)
            | inr (a, e) ↦
                let w3 = mem.memset a b'L' large_size w2 in
                ground (
                  arith,
                  good,
                  e,
                  r.load_value a w3,
                  r.load_value (a + large_size - 1) (mem.load a w3).1,
                  r.load_byte a (a + large_size - 1) w3,
                  fills.filled a b'L' large_size a w2 (omega arith) (omega arith) (omega arith),
                  fills.filled a b'L' large_size (a + large_size - 1) w2 (omega arith) (omega arith)
                      (omega arith),
                )
          ]

      pub small_arrays-GoesOn :
          (stack : Stack) (a : ℕ) (s : Process W)
          → stack.stack_var ≡ some a
          → GoesOn s.trace (small_arrays stack s)
      unfolding small_arrays
      small_arrays-GoesOn stack a s e =
          let b = stack.stack_buffer in
          let w1 = mem.memset b b'S' 8192 s.env in
          let w2 = (mem.load b w1).1 in
          let w3 = (mem.load (b + 8191) w2).1 in
          let w4 = copy_text a alloca_test w3 in
          let same = same_text-true r a alloca_test w4 (copy_text-Holds r a alloca_test w3 refl) in
          let w5 = (same_text a alloca_test w4).1 in
          ground (
            arith,
            e,
            same,
            r.load_value b w1,
            r.load_value (b + 8191) w2,
            r.load_byte b (b + 8191) w1,
            fills.filled b b'S' 8192 b s.env (omega arith) (omega arith) (omega arith),
            fills.filled b b'S' 8192 (b + 8191) s.env (omega arith) (omega arith) (omega arith),
            recursive_stack_test-zero stack stack_depth b'A' w5 (omega arith),
          )

      -- On memory that keeps what is written, wherever the compiler and alloca() put the arrays and however
      -- they overlap, where alloca() gives the small one and the limit of the stack can be read: test13.c
      -- passes in every run in which no SET answered an error and every GET a positive mask.
      pub stack_growth-passes :
          ⦃limits : Limits W⦄
          → (reads : (w : W) → (l : ℕ × ℕ) × ((limits.getrlimit stack_size w).0 ≡ some l))
          → (stack : Stack) (a : ℕ) (w : W) → stack.stack_var ≡ some a
          → is_granted (calls (main stack) (start w)) ≡ true
          → status (main stack) (start w) ≡ 0
      unfolding main
      stack_growth-passes ⦃limits⦄ reads stack a w e granted =
          let (l, read) = reads w in
          let small = λ (s : Process W). small_arrays-GoesOn stack a s e in
          grind (arith, read, small, large_arrays-GoesOn stack)

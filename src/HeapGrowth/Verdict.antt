-- ===== src/HeapGrowth/Verdict.antt =====
-- What the verdict of test12.c is on a heap that ends where brk() has set its end.
use mitosis_tests.Base.{
  ℕ, ◌+◌, ◌-◌, ◌%◌, ◌^◌, ◌<◌, ◌≡◌, refl, Bool, not, ◌&&◌, true, false, some, inl, inr, Option-cases,
  List, [], ◌∷◌, arith, is_neg, is_positive, pos,
}
use mitosis_tests.Machine.{
  Process, Event, get, set, refused, calls, status, start, ok, ended, Outcome, Replication, Memory,
  Heap, Remembers, Fills,
}
use mitosis_tests.Loops.{fill_initial, check_initial, copy_text}
use mitosis_tests.Loops.Texts.{same_text-true, copy_text-Holds, fill_initial-at, check_initial-true}
use mitosis_tests.HeapGrowth.{
  small_size, big_size, malloc_test, address, expand, set_end, use_malloc, main,
}

-- No SET answered an error, every GET a positive mask, and no malloc(), sbrk() or brk() was refused.
abbrev pub is_served : List Event → Bool
is_served [] = true
is_served (set n a ∷ t) = not (is_neg a) && is_served t
is_served (get a ∷ t) = is_positive a && is_served t
is_served (refused ∷ t) = false
is_served (_ ∷ t) = is_served t

-- The heap ends where a brk() that was not refused has set its end, if sbrk(0) answers.
abbrev pub Ends : {W : Type 0} → Heap W → Type 0
Ends {W = W} heap =
    (a b : ℕ) (w : W)
    → a < 2 ^ 64
    → (heap.brk a w).0 ≡ pos 0
    → (heap.sbrk 0 (heap.brk a w).1).0 ≡ some b
    → b ≡ a

-- A part that ends the process only where something was not as it has to be.
abbrev Blames : {W A : Type 0} → Outcome A × Process W → Type 0
Blames (ok a, s) = Unit
Blames (ended n, s) = is_served s.trace ≡ false

module _ {W : Type 0} ⦃mem : Memory W⦄ {byte word : W → ℕ → ℕ} (r : Remembers mem byte word)
    (fills : Fills mem byte) ⦃sys : Replication W⦄ where
  module _ ⦃heap : Heap W⦄ where
    expand-Blames : (s : Process W) → Blames (expand s)
    unfolding expand
    expand-Blames s =
        let w1 = (heap.sbrk small_size s.env).1 in
        elim (Option-cases (heap.sbrk small_size s.env).0) [
          | inl none_left ↦ ground (arith, none_left)
          | inr (a, e) ↦
              let w2 = fill_initial a 0 small_size w1 in
              let good =
                check_initial-true r a 0 small_size w2
                  (λ k le lt. fill_initial-at r a 0 small_size k w1 le lt) in
              let w3 = (check_initial a 0 small_size w2).1 in
              elim (Option-cases (heap.sbrk big_size w3).0) [
                | inl none_left ↦ ground (arith, e, good, none_left)
                | inr (b, e') ↦
                    let w4 = mem.memset b b'X' big_size (heap.sbrk big_size w3).1 in
                    let w5 = mem.store b b'S' w4 in
                    let last = b + big_size - 1 in
                    let w6 = mem.store last b'E' w5 in
                    ground (
                      arith,
                      e,
                      good,
                      e',
                      r.load_value b w6,
                      r.store_other last b'E' b w5 (omega arith),
                      r.store_same b b'S' w4 (omega arith),
                      r.load_value last (mem.load b w6).1,
                      r.load_byte b last w6,
                      r.store_same last b'E' w5 (omega arith),
                    )
              ]
        ]

    set_end-Blames : (ends : Ends heap) (s : Process W) → Blames (set_end s)
    unfolding set_end
    set_end-Blames ends s =
        let b = (address (heap.sbrk 0 s.env).0 + 4096) % 2 ^ 64 in
        let w1 = (heap.sbrk 0 s.env).1 in
        let w2 = (heap.brk b w1).1 in
        elim (Option-cases (heap.sbrk 0 w2).0) [
          | inl none_left ↦ ground (arith, none_left)
          | inr (c, e) ↦
              ground (arith, e, λ (z : (heap.brk b w1).0 ≡ pos 0). ends b c w1 (omega arith) z e)
        ]

  use_malloc_lem :
      (s : Process W) → is_served (use_malloc s).1.trace ≡ true → (use_malloc s).0 ≡ ok tt
  unfolding use_malloc
  use_malloc_lem s h =
      let w1 = (mem.malloc 1024 s.env).1 in
      elim (Option-cases (mem.malloc 1024 s.env).0) [
        | inl none_left ↦ ground (arith, none_left)
        | inr (a, e) ↦
            let w2 = copy_text a malloc_test w1 in
            ground (
              arith,
              e,
              same_text-true r a malloc_test w2 (copy_text-Holds r a malloc_test w1 refl),
            )
      ]

  -- On memory that keeps what is written and a heap that ends where a brk() that was not refused has set
  -- its end, if sbrk(0) answers: test12.c passes in every run in which no SET answered an error,
  -- every GET a positive mask, and no malloc(), sbrk() or brk() was refused.
  pub heap_growth-passes :
      ⦃heap : Heap W⦄ (ends : Ends heap) (w : W)
      → is_served (calls main (start w)) ≡ true
      → status main (start w) ≡ 0
  unfolding main
  heap_growth-passes ⦃heap⦄ ends w served =
      grind (arith, expand-Blames, set_end-Blames ends, use_malloc_lem)

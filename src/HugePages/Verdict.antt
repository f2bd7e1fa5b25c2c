-- ===== src/HugePages/Verdict.antt =====
-- What the verdict of test22.c is on memory that keeps what is written.
use mitosis_tests.Base.{
  ℕ, ◌+◌, ◌-◌, ◌*◌, ◌≡◌, Bool, not, ◌&&◌, true, some, inl, inr, Option-cases, List, [], ◌∷◌, arith,
  is_nonzero, pos,
}
use mitosis_tests.Machine.{
  Process, Event, set, calls, status, start, ok, ended, Outcome, Replication, Memory, Huge, read,
  read_write, private_huge, Remembers, Protects,
}
use mitosis_tests.HugePages.{
  huge_page_size, num_huge_pages, write_marks, write_flipped, check_flipped, use_explicit, split,
  run, main,
}
use mitosis_tests.HugePages.Patterns.{write_marks-IsMarked, check_marks-true, flipped-true}

-- Every SET answered 0.
abbrev pub is_switched : List Event → Bool
is_switched [] = true
is_switched (set n a ∷ t) = not (is_nonzero a) && is_switched t
is_switched (_ ∷ t) = is_switched t

-- A part that answers true, and no call of which is a SET.
abbrev Agrees : {W : Type 0} → List Event → Outcome Bool × Process W → Type 0
Agrees t (ok b, s) = (b ≡ true) × (is_switched s.trace ≡ is_switched t)
Agrees t (ended n, s) = ⊥

module _ {W : Type 0} ⦃mem : Memory W⦄ {byte word : W → ℕ → ℕ} (r : Remembers mem byte word) where
  use_explicit-Agrees :
      (unmapped : (a n : ℕ) (w : W) → (mem.munmap a n w).0 ≡ pos 0) (s : Process W)
      → Agrees s.trace (use_explicit s)
  unfolding use_explicit
  use_explicit-Agrees unmapped s =
      let w1 = (mem.mmap private_huge (huge_page_size * 2) read_write s.env).1 in
      elim (Option-cases (mem.mmap private_huge (huge_page_size * 2) read_write s.env).0) [
        | inl e ↦ ground (arith, e)
        | inr (a, e) ↦
            let w2 = (check_flipped a 0 256 (write_flipped a 0 256 w1)).1 in
            ground (arith, e, flipped-true r a 256 w1, unmapped a (huge_page_size * 2) w2)
      ]

  split-Agrees : (protects : Protects mem word) (a : ℕ) (s : Process W) → Agrees s.trace (split a s)
  unfolding split
  split-Agrees protects a s =
      let middle = a + huge_page_size + 4096 in
      let last = a + huge_page_size * 2 - 4 in
      let w1 = (mem.mprotect middle 4096 read s.env).1 in
      let w2 = mem.store32 a 0x12345678 w1 in
      let w3 = mem.store32 last 0x87654321 w2 in
      let w4 = (mem.load32 a w3).1 in
      let w5 = (mem.load32 last w4).1 in
      ground (
        arith,
        protects.protect_answer middle 4096 read s.env,
        protects.protect_answer middle 4096 read_write w5,
        r.load32_value a w3,
        r.store32_below last 0x87654321 a w2 (omega arith),
        r.store32_same a 0x12345678 w1 (omega arith),
        r.load32_value last w4,
        r.load32_word a last w3,
        r.store32_same last 0x87654321 w2 (omega arith),
      )

  -- On memory that keeps what is written, where mprotect() and munmap() succeed, test22.c passes if
  -- posix_memalign() grants its request and both SETs answer 0, with explicit huge pages or without.
  pub huge_pages-passes :
      (protects : Protects mem word) (unmapped : (a n : ℕ) (w : W) → (mem.munmap a n w).0 ≡ pos 0)
      ⦃sys : Replication W⦄ ⦃huge : Huge W⦄ (a : ℕ) (w : W)
      → (huge.posix_memalign huge_page_size (huge_page_size * num_huge_pages) w).0 ≡ some a
      → is_switched (calls main (start w)) ≡ true
      → status main (start w) ≡ 0
  unfolding main run
  huge_pages-passes protects unmapped a w granted switched =
      let marked = λ (v : W).
        check_marks-true r a 0 num_huge_pages (write_marks a 0 num_huge_pages v)
          (λ k le lt. write_marks-IsMarked r a 0 num_huge_pages k v le lt) in
      grind (arith, granted, marked, use_explicit-Agrees unmapped, split-Agrees protects a)

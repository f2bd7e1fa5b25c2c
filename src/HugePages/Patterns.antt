-- ===== src/HugePages/Patterns.antt =====
-- The patterns of test22.c: what is written is found again.
use mitosis_tests.Base.{ℕ, zero, suc, ◌+◌, ◌*◌, ◌≤◌, ◌<◌, ◌≡◌, refl, ◌∙◌, true, arith, ℕ_discrete}
use mitosis_tests.Machine.{Memory, Remembers}
use mitosis_tests.HugePages.{
  mark, flipped, start_of, middle_of, end_of, write_marks, check_marks, write_flipped,
  check_flipped,
}

module _ {W : Type 0} ⦃mem : Memory W⦄ {byte word : W → ℕ → ℕ} (r : Remembers mem byte word) where
  -- The three marks of a huge page.
  abbrev pub IsMarked : ℕ → ℕ → W → Type 0
  IsMarked a i w =
      (word w (start_of a i) ≡ mark 0 i)
      × (word w (middle_of a i) ≡ mark 0x1000 i)
      × (word w (end_of a i) ≡ mark 0x2000 i)

  write_marks-below :
      (a i n b : ℕ) (w : W) → b + 4 ≤ start_of a i → word (write_marks a i n w) b ≡ word w b
  unfolding write_marks
  write_marks-below a i zero b w le = refl
  write_marks-below a i (suc n) b w le =
      let w1 = mem.store32 (start_of a i) (mark 0 i) w in
      let w2 = mem.store32 (middle_of a i) (mark 0x1000 i) w1 in
      let w3 = mem.store32 (end_of a i) (mark 0x2000 i) w2 in
      write_marks-below a (i + 1) n b w3 (omega arith)
      ∙ r.store32_below (end_of a i) (mark 0x2000 i) b w2 (omega arith)
      ∙ r.store32_below (middle_of a i) (mark 0x1000 i) b w1 (omega arith)
      ∙ r.store32_below (start_of a i) (mark 0 i) b w (omega arith)

  pub write_marks-IsMarked :
      (a i n k : ℕ) (w : W) → i ≤ k → k < i + n → IsMarked a k (write_marks a i n w)
  unfolding write_marks
  write_marks-IsMarked a i zero k w le lt = absurd (omega arith)
  write_marks-IsMarked a i (suc n) k w le lt =
      let w1 = mem.store32 (start_of a i) (mark 0 i) w in
      let w2 = mem.store32 (middle_of a i) (mark 0x1000 i) w1 in
      let w3 = mem.store32 (end_of a i) (mark 0x2000 i) w2 in
      elim (ℕ_discrete i k) [
        | yes e ↦ rw (← e) (
          write_marks-below a (i + 1) n (start_of a i) w3 (omega arith)
              ∙ r.store32_below (end_of a i) (mark 0x2000 i) (start_of a i) w2 (omega arith)
              ∙ r.store32_below (middle_of a i) (mark 0x1000 i) (start_of a i) w1 (omega arith)
              ∙ r.store32_same (start_of a i) (mark 0 i) w (omega arith),
          write_marks-below a (i + 1) n (middle_of a i) w3 (omega arith)
              ∙ r.store32_below (end_of a i) (mark 0x2000 i) (middle_of a i) w2 (omega arith)
              ∙ r.store32_same (middle_of a i) (mark 0x1000 i) w1 (omega arith),
          write_marks-below a (i + 1) n (end_of a i) w3 (omega arith)
              ∙ r.store32_same (end_of a i) (mark 0x2000 i) w2 (omega arith),
        )
        | no ne ↦ write_marks-IsMarked a (i + 1) n k w3 (omega arith) (omega arith)
      ]

  pub check_marks-true :
      (a i n : ℕ) (w : W)
      → ((k : ℕ) → i ≤ k → k < i + n → IsMarked a k w)
      → (check_marks a i n w).0 ≡ true
  unfolding check_marks
  check_marks-true a i zero w h = refl
  check_marks-true a i (suc n) w h =
      let w1 = (mem.load32 (start_of a i) w).1 in
      let w2 = (mem.load32 (middle_of a i) w1).1 in
      let w3 = (mem.load32 (end_of a i) w2).1 in
      let kept = λ (b : ℕ).
        r.load32_word (end_of a i) b w2
        ∙ r.load32_word (middle_of a i) b w1
        ∙ r.load32_word (start_of a i) b w in
      let rest = check_marks-true a (i + 1) n w3 (λ k le lt.
        let (x, y, z) = h k (omega arith) (omega arith) in
        (kept (start_of a k) ∙ x, kept (middle_of a k) ∙ y, kept (end_of a k) ∙ z)) in
      let (x, y, z) = h i (omega arith) (omega arith) in
      ground (
        arith,
        rest,
        x,
        y,
        z,
        r.load32_value (start_of a i) w,
        r.load32_value (middle_of a i) w1,
        r.load32_value (end_of a i) w2,
        r.load32_word (start_of a i) (middle_of a i) w,
        r.load32_word (start_of a i) (end_of a i) w,
        r.load32_word (middle_of a i) (end_of a i) w1,
      )

  write_flipped-below :
      (a j n b : ℕ) (w : W) → b + 4 ≤ a + 4 * j → word (write_flipped a j n w) b ≡ word w b
  unfolding write_flipped
  write_flipped-below a j zero b w le = refl
  write_flipped-below a j (suc n) b w le =
      write_flipped-below a (j + 4096) n b (mem.store32 (a + 4 * j) (flipped j) w) (omega arith)
      ∙ r.store32_below (a + 4 * j) (flipped j) b w le

  -- The words of the explicit huge pages, `k` rounds after the first.
  write_flipped-at :
      (a j n k : ℕ) (w : W)
      → k < n
      → let here = j + 4096 * k in word (write_flipped a j n w) (a + 4 * here) ≡ flipped here
  unfolding write_flipped
  write_flipped-at a j zero k w lt = absurd (omega arith)
  write_flipped-at a j (suc n) zero w lt =
      let e : j + 4096 * 0 ≡ j = omega arith in
      rw e (
        write_flipped-below a (j + 4096) n (a + 4 * j) (mem.store32 (a + 4 * j) (flipped j) w)
          (omega arith)
        ∙ r.store32_same (a + 4 * j) (flipped j) w (omega arith))
  write_flipped-at a j (suc n) (suc k) w lt =
      let e : j + 4096 * suc k ≡ j + 4096 + 4096 * k = omega arith in
      rw e (write_flipped-at a (j + 4096) n k (mem.store32 (a + 4 * j) (flipped j) w) (omega arith))

  check_flipped-true :
      (a j n : ℕ) (w : W)
      → ((k : ℕ) → k < n → let here = j + 4096 * k in word w (a + 4 * here) ≡ flipped here)
      → (check_flipped a j n w).0 ≡ true
  unfolding check_flipped
  check_flipped-true a j zero w h = refl
  check_flipped-true a j (suc n) w h =
      let e : j + 4096 * 0 ≡ j = omega arith in
      let first : word w (a + 4 * j) ≡ flipped j = rw e at (h 0 (omega arith)) in
      let w1 = (mem.load32 (a + 4 * j) w).1 in
      let rest = check_flipped-true a (j + 4096) n w1 (λ k lt.
        let e' : j + 4096 + 4096 * k ≡ j + 4096 * suc k = omega arith in
        rw e'
          (r.load32_word (a + 4 * j) (a + 4 * (j + 4096 * suc k)) w ∙ h (suc k) (omega arith))) in
      ground (arith, r.load32_value (a + 4 * j) w, first, rest)

  pub flipped-true : (a n : ℕ) (w : W) → (check_flipped a 0 n (write_flipped a 0 n w)).0 ≡ true
  flipped-true a n w =
      check_flipped-true a 0 n (write_flipped a 0 n w) (λ k lt. write_flipped-at a 0 n k w lt)

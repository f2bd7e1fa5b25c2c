-- ===== src/RegionKinds/Numbers.antt =====
-- The loops of test28.c on a block of calloc().
use mitosis_tests.Base.{ℕ, zero, suc, ◌+◌, ◌*◌, ◌^◌, ◌≤◌, ◌<◌, ◌≡◌, refl, ◌↔◌, true, arith}
use mitosis_tests.Machine.{Memory, Remembers}
use mitosis_tests.RegionKinds.{number_words, verify_numbers}

module _ {W : Type 0} ⦃mem : Memory W⦄ {byte word : W → ℕ → ℕ} (r : Remembers mem byte word) where
  number_words-true :
      (a i n : ℕ) (w : W)
      → ((k : ℕ) → i ≤ k → k < i + n → word w (a + 4 * k) ≡ 0)
      → (number_words a i n w).0 ≡ true
  unfolding number_words
  number_words-true a i zero w h = refl
  number_words-true a i (suc n) w h =
      let w1 = (mem.load32 (a + 4 * i) w).1 in
      let rest = number_words-true a (i + 1) n (mem.store32 (a + 4 * i) i w1) (λ k le lt. ground (
        arith,
        r.store32_above (a + 4 * i) i (a + 4 * k) w1,
        r.load32_word (a + 4 * i) (a + 4 * k) w,
        h k,
      )) in
      ground (arith, r.load32_value (a + 4 * i) w, h i)

  number_words-zero :
      (a i n k : ℕ) (w : W)
      → (number_words a i n w).0 ≡ true
      → i ≤ k
      → k < i + n
      → word w (a + 4 * k) ≡ 0
  unfolding number_words
  number_words-zero a i zero k w h le lt = absurd (omega arith)
  number_words-zero a i (suc n) k w h le lt =
      let w1 = (mem.load32 (a + 4 * i) w).1 in
      ground (
        arith,
        r.load32_value (a + 4 * i) w,
        r.store32_above (a + 4 * i) i (a + 4 * k) w1,
        r.load32_word (a + 4 * i) (a + 4 * k) w,
        number_words-zero a (i + 1) n k (mem.store32 (a + 4 * i) i w1),
      )

  number_words-below :
      (a i n k : ℕ) (w : W) → k < i → word (number_words a i n w).1 (a + 4 * k) ≡ word w (a + 4 * k)
  unfolding number_words
  number_words-below a i zero k w lt = refl
  number_words-below a i (suc n) k w lt =
      let w1 = (mem.load32 (a + 4 * i) w).1 in
      ground (
        arith,
        r.load32_word (a + 4 * i) (a + 4 * k) w,
        r.store32_below (a + 4 * i) i (a + 4 * k) w1,
        number_words-below a (i + 1) n k (mem.store32 (a + 4 * i) i w1),
      )

  number_words-at :
      (a i n k : ℕ) (w : W)
      → (number_words a i n w).0 ≡ true
      → i ≤ k
      → k < i + n
      → k < 2 ^ 32
      → word (number_words a i n w).1 (a + 4 * k) ≡ k
  unfolding number_words
  number_words-at a i zero k w h le lt small = absurd (omega arith)
  number_words-at a i (suc n) k w h le lt small =
      let w1 = (mem.load32 (a + 4 * i) w).1 in
      let w2 = mem.store32 (a + 4 * i) i w1 in
      ground (
        arith,
        r.store32_same (a + 4 * i) i w1,
        number_words-below a (i + 1) n i w2,
        number_words-at a (i + 1) n k w2,
      )

  verify_numbers-true :
      (a i n : ℕ) (w : W)
      → ((k : ℕ) → i ≤ k → k < i + n → word w (a + 4 * k) ≡ k)
      → (verify_numbers a i n w).0 ≡ true
  unfolding verify_numbers
  verify_numbers-true a i zero w h = refl
  verify_numbers-true a i (suc n) w h =
      let w1 = (mem.load32 (a + 4 * i) w).1 in
      let rest =
        verify_numbers-true a (i + 1) n w1
          (λ k le lt. ground (arith, r.load32_word (a + 4 * i) (a + 4 * k) w, h k)) in
      ground (arith, r.load32_value (a + 4 * i) w, h i)

  -- On memory that keeps what is written, the first loop of test28.c over a block of calloc() runs to its
  -- end exactly if every word of the block is 0, and then the second loop, which reads the numbers back,
  -- runs to its end too; the block has at most 2 ^ 32 words.
  pub number_words-true_iff :
      (a n : ℕ) (w : W)
      → n ≤ 2 ^ 32
      → (((number_words a 0 n w).0 ≡ true) ↔ ((k : ℕ) → k < n → word w (a + 4 * k) ≡ 0))
        × ((number_words a 0 n w).0 ≡ true
            → (verify_numbers a 0 n (number_words a 0 n w).1).0 ≡ true)
  number_words-true_iff a n w small =
      let forth = λ (h : (number_words a 0 n w).0 ≡ true) (k : ℕ) (lt : k < n).
        number_words-zero a 0 n k w h (omega arith) (omega arith) in
      let back = λ (h : (k : ℕ) → k < n → word w (a + 4 * k) ≡ 0).
        number_words-true a 0 n w (λ k le lt. h k (omega arith)) in
      (
        (forth, back),
        λ h.
            verify_numbers-true a 0 n (number_words a 0 n w).1
              (λ k le lt. number_words-at a 0 n k w h le lt (omega arith)),
      )

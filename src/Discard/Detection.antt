-- ===== src/Discard/Detection.antt =====
-- Which wrong kernels test16.c and test27.c tell apart.
use mitosis_tests.Base.{ℕ, zero, suc, ◌+◌, ◌*◌, ◌/◌, ◌<◌, ◌≡◌, refl, ◌∙◌, false, some, arith, pos}
use mitosis_tests.Machine.{
  status, start, Process, ok, pr_set_pgtable_repl, pr_get_pgtable_repl, Replication, Memory,
  read_write, private_anonymous, Remembers,
}
use mitosis_tests.Loops.{fill, verify}
use mitosis_tests.Loops.Words.{fill-at, verify-word, verify-true, verify-false}
use mitosis_tests.Discard.Partial
use mitosis_tests.Discard.Debug
use mitosis_tests.Discard.Debug.{count_errors}
use mitosis_tests.Discard.Verdict.{verify-fill}

module _ {W : Type 0} ⦃mem : Memory W⦄ {byte word : W → ℕ → ℕ} (r : Remembers mem byte word) where
  -- A first word that survives the first discard is seen.
  body-false :
      ((a n : ℕ) (w : W) → (mem.discard a n w).0 ≡ pos 0)
      → ((a n b : ℕ) (w : W) → word (mem.discard a n w).1 b ≡ word w b)
      → (ptr : ℕ) (s : Process W) → (Partial.body ptr s).0 ≡ ok false
  unfolding Partial.body
  body-false answered ignored ptr s =
      let w1 = fill ptr Partial.pattern1 Partial.num_words s.env in
      let w2 = (verify ptr Partial.pattern1 Partial.num_words w1).1 in
      let w3 = (mem.discard ptr Partial.test_size w2).1 in
      let e : ptr + 4 * 0 ≡ ptr = omega arith in
      let kept : word w3 ptr ≡ Partial.pattern1 =
        ignored ptr Partial.test_size ptr w2
        ∙ verify-word r ptr Partial.pattern1 Partial.num_words ptr w1
        ∙ (rw e at (
            fill-at r ptr Partial.pattern1 Partial.num_words 0 s.env (omega arith)
              (omega arith))) in
      let seen = verify-false r ptr 0 Partial.num_words w3 (omega arith) (omega arith) in
      ground (
        arith,
        verify-fill r ptr Partial.pattern1 Partial.num_words s.env (omega arith),
        answered ptr Partial.test_size w2,
      )

  -- On memory that keeps what is written, test16.c fails on every kernel that answers MADV_DONTNEED
  -- with success and changes no word.
  partial-rejects_ignored :
      ⦃sys : Replication W⦄
      → ((a n : ℕ) (w : W) → (mem.discard a n w).0 ≡ pos 0)
      → ((a n b : ℕ) (w : W) → word (mem.discard a n w).1 b ≡ word w b)
      → (w : W) → status Partial.main (start w) ≡ 1
  unfolding Partial.main
  partial-rejects_ignored answered ignored w = grind (arith, body-false answered ignored)

  count_errors-zero :
      (a n e : ℕ) (w : W)
      → ((i : ℕ) → i < n → word w (a + 4 * i) ≡ 0)
      → (count_errors a n e w).0 ≡ e
  unfolding count_errors
  count_errors-zero a zero e w h = refl
  count_errors-zero a (suc n) e w h =
      let first : word w a ≡ 0 =
        let z : a + 4 * 0 ≡ a = omega arith in rw z at (h 0 (omega arith)) in
      let rest = count_errors-zero (a + 4) n e (mem.load32 a w).1 (λ i lt.
        let s : a + 4 * suc i ≡ a + 4 + 4 * i = omega arith in
        r.load32_word a (a + 4 + 4 * i) w ∙ (rw s at (h (suc i) (omega arith)))) in
      ground (arith, r.load32_value a w)

  module _ (answered : (a n : ℕ) (w : W) → (mem.discard a n w).0 ≡ pos 0)
      (wiped : (a n b : ℕ) (w : W) → word (mem.discard a n w).1 b ≡ 0) where
    -- On memory that keeps what is written, where MADV_DONTNEED succeeds and makes every word zero, those
    -- outside its range too, test27.c passes, if replication can be switched on and the mapping is granted:
    -- it checks the second half of its mapping, which is lost, and does not count what it finds.
    pub debug-accepts_wiped :
        ⦃sys : Replication W⦄
        → ((w : W) → (sys.prctl pr_set_pgtable_repl 1 w).0 ≡ pos 0)
        → ((w : W)
            → (a : ℕ) × ((mem.mmap private_anonymous Debug.test_size read_write w).0 ≡ some a))
        → (w : W) → status Debug.main (start w) ≡ 0
    unfolding Debug.main
    debug-accepts_wiped ⦃sys⦄ switched granted w =
        let w1 = (sys.prctl pr_set_pgtable_repl 1 w).1 in
        let w2 = (sys.prctl pr_get_pgtable_repl 0 w1).1 in
        let (ptr, e) = granted w2 in
        let w3 = (mem.mmap private_anonymous Debug.test_size read_write w2).1 in
        let w4 = fill ptr Debug.word_pattern Debug.num_words w3 in
        let w5 = (verify ptr Debug.word_pattern Debug.num_words w4).1 in
        let w6 = (mem.discard ptr (Debug.test_size / 2) w5).1 in
        ground (
          arith,
          switched w,
          e,
          verify-fill r ptr Debug.word_pattern Debug.num_words w3 (omega arith),
          answered ptr (Debug.test_size / 2) w5,
          count_errors-zero ptr Debug.half_words 0 w6
              (λ i lt. wiped ptr (Debug.test_size / 2) (ptr + 4 * i) w5),
        )

    first_half-false : (ptr : ℕ) (s : Process W) → (Partial.first_half ptr s).0 ≡ ok false
    unfolding Partial.first_half
    first_half-false ptr s =
        let half : ℕ = Partial.test_size / 2 in
        let n : ℕ = Partial.num_words / 2 in
        let w1 = (mem.discard ptr half s.env).1 in
        let w2 = (verify ptr 0 n w1).1 in
        let gone : word w2 (ptr + half) ≡ 0 =
          verify-word r ptr 0 n (ptr + half) w1 ∙ wiped ptr half (ptr + half) s.env in
        let zeros = verify-true r ptr 0 n w1 (λ i lt. wiped ptr half (ptr + 4 * i) s.env) in
        let seen = verify-false r (ptr + half) Partial.pattern2 n w2 (omega arith) (omega arith) in
        ground (arith, answered ptr half s.env)

    body-false_wiped : (ptr : ℕ) (s : Process W) → (Partial.body ptr s).0 ≡ ok false
    unfolding Partial.body
    body-false_wiped ptr s =
        let w1 = fill ptr Partial.pattern1 Partial.num_words s.env in
        let w2 = (verify ptr Partial.pattern1 Partial.num_words w1).1 in
        let w3 = (mem.discard ptr Partial.test_size w2).1 in
        let w4 = (verify ptr 0 Partial.num_words w3).1 in
        let w5 = fill ptr Partial.pattern2 Partial.num_words w4 in
        let w6 = (verify ptr Partial.pattern2 Partial.num_words w5).1 in
        ground (
          arith,
          verify-fill r ptr Partial.pattern1 Partial.num_words s.env (omega arith),
          answered ptr Partial.test_size w2,
          verify-true r ptr 0 Partial.num_words w3
              (λ i lt. wiped ptr Partial.test_size (ptr + 4 * i) w2),
          verify-fill r ptr Partial.pattern2 Partial.num_words w4 (omega arith),
          first_half-false ptr (record s { env = w6 }),
        )

    -- On memory that keeps what is written, where MADV_DONTNEED succeeds and makes every word zero, those
    -- outside its range too, test16.c fails.
    pub partial-rejects_wiped : ⦃sys : Replication W⦄ (w : W) → status Partial.main (start w) ≡ 1
    unfolding Partial.main
    partial-rejects_wiped w = grind (arith, body-false_wiped)

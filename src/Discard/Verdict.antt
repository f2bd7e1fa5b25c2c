-- ===== src/Discard/Verdict.antt =====
-- What the verdict of test16.c means on memory that keeps what is written.
use mitosis_tests.Base.{ℕ, ◌+◌, ◌*◌, ◌/◌, ◌^◌, ◌≤◌, ◌<◌, ◌≡◌, ◌∙◌, true, some, arith, pos}
use mitosis_tests.Machine.{
  status, start, Process, ok, pr_set_pgtable_repl, pr_get_pgtable_repl, Replication, Memory,
  no_access, read_write, private_anonymous, Remembers, Discards, Protects,
}
use mitosis_tests.Loops.{fill, verify}
use mitosis_tests.Loops.Words.{fill-at, verify-word, verify-true}
use mitosis_tests.Discard.Partial
use mitosis_tests.Discard.Partial.{
  test_size, num_words, pattern1, pattern2, body, first_half, guarded,
}

module _ {W : Type 0} ⦃mem : Memory W⦄ {byte word : W → ℕ → ℕ} (r : Remembers mem byte word) where
  -- After a run of writes the check of the same run succeeds.
  pub verify-fill : (a v n : ℕ) (w : W) → v < 2 ^ 32 → (verify a v n (fill a v n w)).0 ≡ true
  verify-fill a v n w small =
      verify-true r a v n (fill a v n w) (λ i lt. fill-at r a v n i w small lt)

  module _ (d : Discards mem word) where
    -- A range that was discarded reads as zeros, whatever the rest of the discard.
    verify-discard : (a n m : ℕ) (w : W) → 4 * n ≤ m → (verify a 0 n (mem.discard a m w).1).0 ≡ true
    verify-discard a n m w h =
        verify-true r a 0 n (mem.discard a m w).1
          (λ i lt. d.inside a m (a + 4 * i) w (omega arith) (omega arith))

    module _ (p : Protects mem word) where
      guarded-true : (ptr : ℕ) (s : Process W) → (guarded ptr s).0 ≡ ok true
      unfolding guarded
      guarded-true ptr s =
          let w1 = (mem.mprotect ptr test_size no_access s.env).1 in
          let w2 = (mem.discard ptr test_size w1).1 in
          let w3 = (mem.mprotect ptr test_size read_write w2).1 in
          let zeros = verify-true r ptr 0 num_words w3 (λ i lt.
            p.protect_word ptr test_size read_write (ptr + 4 * i) w2
            ∙ d.inside ptr test_size (ptr + 4 * i) w1 (omega arith) (omega arith)) in
          ground (
            arith,
            p.protect_answer ptr test_size no_access s.env,
            d.answer ptr test_size w1,
            p.protect_answer ptr test_size read_write w2,
          )

      first_half-true :
          (ptr : ℕ) (s : Process W)
          → ((i : ℕ) → i < num_words → word s.env (ptr + 4 * i) ≡ pattern2)
          → (first_half ptr s).0 ≡ ok true
      unfolding first_half
      first_half-true ptr s filled =
          let half : ℕ = test_size / 2 in
          let w1 = (mem.discard ptr half s.env).1 in
          let w2 = (verify ptr 0 (num_words / 2) w1).1 in
          let w3 = (verify (ptr + half) pattern2 (num_words / 2) w2).1 in
          let zeros = verify-discard ptr (num_words / 2) half s.env (omega arith) in
          let kept = verify-true r (ptr + half) pattern2 (num_words / 2) w2 (λ i lt.
            let e : ptr + half + 4 * i ≡ ptr + 4 * (num_words / 2 + i) = omega arith in
            verify-word r ptr 0 (num_words / 2) (ptr + half + 4 * i) w1
            ∙ d.above ptr half (ptr + half + 4 * i) s.env (omega arith)
            ∙ rw e (filled (num_words / 2 + i) (omega arith))) in
          ground (arith, d.answer ptr half s.env, guarded-true ptr (record s { env = w3 }))

      body-true : (ptr : ℕ) (s : Process W) → (body ptr s).0 ≡ ok true
      unfolding body
      body-true ptr s =
          let w1 = fill ptr pattern1 num_words s.env in
          let w2 = (verify ptr pattern1 num_words w1).1 in
          let w3 = (mem.discard ptr test_size w2).1 in
          let w4 = (verify ptr 0 num_words w3).1 in
          let w5 = fill ptr pattern2 num_words w4 in
          let w6 = (verify ptr pattern2 num_words w5).1 in
          let filled = λ (i : ℕ) (lt : i < num_words).
            verify-word r ptr pattern2 num_words (ptr + 4 * i) w5
            ∙ fill-at r ptr pattern2 num_words i w4 (omega arith) lt in
          ground (
            arith,
            verify-fill ptr pattern1 num_words s.env (omega arith),
            d.answer ptr test_size w2,
            verify-discard ptr num_words test_size w2 (omega arith),
            verify-fill ptr pattern2 num_words w4 (omega arith),
            first_half-true ptr (record s { env = w6 }) filled,
          )

      -- On memory that keeps what is written, where MADV_DONTNEED and mprotect() always succeed, the former
      -- changes no word outside its range and makes those in it zero, and the latter changes none: test16.c
      -- passes, if replication can be switched on and the mapping is granted.
      pub partial-passes :
          ⦃sys : Replication W⦄
          → ((w : W) → (sys.prctl pr_set_pgtable_repl 1 w).0 ≡ pos 0)
          → ((w : W) → (a : ℕ) × ((mem.mmap private_anonymous test_size read_write w).0 ≡ some a))
          → (w : W) → status Partial.main (start w) ≡ 0
      unfolding Partial.main
      partial-passes ⦃sys⦄ switched granted w =
          let w1 = (sys.prctl pr_set_pgtable_repl 1 w).1 in
          let w2 = (sys.prctl pr_get_pgtable_repl 0 w1).1 in
          let (ptr, e) = granted w2 in grind (arith, switched w, e, body-true)

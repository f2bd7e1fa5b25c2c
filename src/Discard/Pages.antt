-- ===== src/Discard/Pages.antt =====
-- What the verdict of test33.c means on memory that keeps what is written.
use mitosis_tests.Base.{ℕ, zero, suc, ◌+◌, ◌*◌, ◌<◌, ◌≡◌, refl, some, arith, pos}
use mitosis_tests.Machine.{
  status, start, Process, ok, ended, pr_set_pgtable_repl, pr_get_pgtable_repl, Replication, Memory,
  read_write, private_anonymous, Remembers, Discards,
}
use mitosis_tests.Loops.{fill}
use mitosis_tests.Loops.Words.{fill-at}
use mitosis_tests.Discard.Minimal
use mitosis_tests.Discard.Minimal.{word_pattern, test_size, num_pages, each_page}

module _ {W : Type 0} ⦃mem : Memory W⦄ {byte word : W → ℕ → ℕ} (r : Remembers mem byte word) where
  -- The page after its pattern was written, and after it was discarded.
  module _ (d : Discards mem word) where
    each_page-ok : (ptr page n : ℕ) (s : Process W) → (each_page ptr page n s).0 ≡ ok tt
    unfolding each_page
    each_page-ok ptr page zero s = refl
    each_page-ok ptr page (suc n) s =
        let a = ptr + page * 4096 in
        let z : a + 4 * 0 ≡ a = omega arith in
        let w1 = fill a word_pattern 1024 s.env in
        let w2 = (mem.load32 a w1).1 in
        let w3 = (mem.discard a 4096 w2).1 in
        let w4 = (mem.load32 a w3).1 in
        let written : word w1 a ≡ word_pattern =
          rw z at (fill-at r a word_pattern 1024 0 s.env (omega arith) (omega arith)) in
        ground (
          arith,
          r.load32_value a w1,
          d.answer a 4096 w2,
          r.load32_value a w3,
          d.inside a 4096 a w2 (omega arith) (omega arith),
          each_page-ok ptr (page + 1) n (record s { env = w4 }),
        )

    -- On memory that keeps what is written, with MADV_DONTNEED as documented, test33.c passes, if
    -- replication can be switched on and the mapping is granted.
    minimal-passes :
        ⦃sys : Replication W⦄
        → ((w : W) → (sys.prctl pr_set_pgtable_repl 1 w).0 ≡ pos 0)
        → ((w : W) → (a : ℕ) × ((mem.mmap private_anonymous test_size read_write w).0 ≡ some a))
        → (w : W) → status Minimal.main (start w) ≡ 0
    unfolding Minimal.main
    minimal-passes ⦃sys⦄ switched granted w =
        let w1 = (sys.prctl pr_set_pgtable_repl 1 w).1 in
        let w2 = (sys.prctl pr_get_pgtable_repl 0 w1).1 in
        let (ptr, e) = granted w2 in grind (arith, switched w, e, each_page-ok)

  -- The first page is not zeroed where a discard is ignored.
  module _ (answered : (a n : ℕ) (w : W) → (mem.discard a n w).0 ≡ pos 0)
      (ignored : (a n b : ℕ) (w : W) → word (mem.discard a n w).1 b ≡ word w b) where
    each_page-fails :
        (ptr page n : ℕ) (s : Process W) → 0 < n → (each_page ptr page n s).0 ≡ ended 1
    unfolding each_page
    each_page-fails ptr page zero s pos_n = absurd (omega arith)
    each_page-fails ptr page (suc n) s pos_n =
        let a = ptr + page * 4096 in
        let z : a + 4 * 0 ≡ a = omega arith in
        let w1 = fill a word_pattern 1024 s.env in
        let w2 = (mem.load32 a w1).1 in
        let w3 = (mem.discard a 4096 w2).1 in
        let written : word w1 a ≡ word_pattern =
          rw z at (fill-at r a word_pattern 1024 0 s.env (omega arith) (omega arith)) in
        ground (
          arith,
          r.load32_value a w1,
          r.load32_word a a w1,
          answered a 4096 w2,
          ignored a 4096 a w2,
          r.load32_value a w3,
        )

    -- On memory that keeps what is written, test33.c fails on every kernel that answers MADV_DONTNEED with
    -- success and changes no word.
    minimal-rejects_ignored : ⦃sys : Replication W⦄ (w : W) → status Minimal.main (start w) ≡ 1
    unfolding Minimal.main
    minimal-rejects_ignored w = grind (arith, each_page-fails)

-- ===== src/Locking/Refused.antt =====
-- What the verdict of test25.c is where mlock() is refused, which the test calls not fatal.
use mitosis_tests.Base.{
  ℕ, ◌+◌, ◌*◌, ◌≤◌, ◌≡◌, refl, ◌≢◌, inl, inr, Bool, true, false, Option, none, some, ◌∷◌, arith,
  Bool-cases, Option-cases, is_nonzero,
}
use mitosis_tests.Machine.{
  set, get, status, Process, ok, pr_set_pgtable_repl, pr_get_pgtable_repl, Replication, Memory,
  read_write, private_anonymous, Remembers,
}
use mitosis_tests.Loops.{write_words}
use mitosis_tests.Loops.Pages.{write_words-below, agree_words-word, agree_words-false}
use mitosis_tests.Locking.{
  region_size, num_pages, locked_word, partial_word, lock_first, lock_third, lock_all, unlock_first,
  lock_middle, verify_regions, unmap_regions, locked_part,
}

-- What is true of memory that is in use is not changed by a call that writes elsewhere: by the
-- calls that write nothing, and by memset on memory that was handed out afterwards.
pub record LeavesAlone {W : Type 0} (sys : Replication W) (mem : Memory W) (P : W → Type 0)
    : Type 0 where
  pub prctl : (option n : ℕ) (w : W) → P w → P (sys.prctl option n w).1
  pub malloc : (n : ℕ) (w : W) → P w → P (mem.malloc n w).1
  pub free : (a : ℕ) (w : W) → P w → P (mem.free a w)
  pub mmap : (n : ℕ) (w : W) → P w → P (mem.mmap private_anonymous n read_write w).1
  pub mlock : (a n : ℕ) (w : W) → P w → P (mem.mlock a n w).1
  pub munlock : (a n : ℕ) (w : W) → P w → P (mem.munlock a n w).1
  pub mlockall : (w : W) → P w → P (mem.mlockall w).1
  pub load : (a : ℕ) (w : W) → P w → P (mem.load a w).1
  pub memset_mapped :
      (n a v m : ℕ) (w w' : W)
      → (mem.mmap private_anonymous n read_write w).0 ≡ some a
      → P w'
      → P (mem.memset a v m w')
  pub memset_block :
      (n a v m : ℕ) (w w' : W) → (mem.malloc n w).0 ≡ some a → P w' → P (mem.memset a v m w')

module _ {W : Type 0} ⦃mem : Memory W⦄ ⦃sys : Replication W⦄ {byte word : W → ℕ → ℕ}
    (r : Remembers mem byte word) (region1 region2 : ℕ) where
  lock_third-goes_on : (s : Process W) → (o : Option ℕ) × ((lock_third s).0 ≡ ok o)
  unfolding lock_third
  lock_third-goes_on s =
      elim (Option-cases (mem.mmap private_anonymous (4096 * 8) read_write s.env).0) [
        | inl e ↦ (none, rw e)
        | inr (a, e) ↦ (some a, rw e)
      ]

  lock_all-goes_on : (s : Process W) → (b : Bool) × ((lock_all s).0 ≡ ok b)
  unfolding lock_all
  lock_all-goes_on s = elim (Bool-cases (is_nonzero (mem.mlockall s.env).0)) [
    | inl failed ↦ (true, rw failed)
    | inr locked ↦ rw locked (elim (Option-cases (mem.malloc 4096 (mem.mlockall s.env).1).0) [
      | inl e ↦ (true, rw e)
      | inr (a, e) ↦ rw e (_, refl)
    ])
  ]

  unmap_regions-goes_on :
      (a b : ℕ) (o : Option ℕ) (s : Process W) → (unmap_regions a b o s).0 ≡ ok tt
  unfolding unmap_regions
  unmap_regions-goes_on a b none s = refl
  unmap_regions-goes_on a b (some c) s = refl

  -- The first word of the first region is not the one that the final check looks for.
  abbrev Unwritten : W → Type 0
  Unwritten w = word w region1 ≢ locked_word 0

  module _ (apart : region1 + region_size ≤ region2) (alone : LeavesAlone sys mem Unwritten) where
    lock_first-Unwritten :
        ((w : W) → is_nonzero (mem.mlock region1 region_size w).0 ≡ true)
        → (w : W) → Unwritten w
        → Unwritten (lock_first region1 w).1
    unfolding lock_first
    lock_first-Unwritten refuses w h = rw (refuses w) (alone.mlock region1 region_size w h)

    lock_third-Unwritten : (s : Process W) → Unwritten s.env → Unwritten (lock_third s).1.env
    unfolding lock_third
    lock_third-Unwritten s h =
        let call = mem.mmap private_anonymous (4096 * 8) read_write s.env in
        let h1 = alone.mmap (4096 * 8) s.env h in
        elim (Option-cases call.0) [
          | inl e ↦ rw e h1
          | inr (a, e) ↦ rw e (
              alone.mlock a (4096 * 8) (mem.memset a 0xCC (4096 * 8) call.1)
                (alone.memset_mapped (4096 * 8) a 0xCC (4096 * 8) s.env call.1 e h1))
        ]

    lock_all-Unwritten : (s : Process W) → Unwritten s.env → Unwritten (lock_all s).1.env
    unfolding lock_all
    lock_all-Unwritten s h =
        let w1 = (mem.mlockall s.env).1 in
        let h1 = alone.mlockall s.env h in
        let call = mem.malloc 4096 w1 in
        let h2 = alone.malloc 4096 w1 h1 in
        elim (Bool-cases (is_nonzero (mem.mlockall s.env).0)) [
          | inl failed ↦ rw failed h1
          | inr locked ↦ rw locked (elim (Option-cases call.0) [
            | inl e ↦ rw e h2
            | inr (a, e) ↦
                let w2 = mem.memset a 0xDD 4096 call.1 in
                rw e (
                  alone.free a (mem.load a w2).1
                    (alone.load a w2 (alone.memset_block 4096 a 0xDD 4096 w1 call.1 e h2)))
          ])
        ]

    unlock_first-Unwritten : (w : W) → Unwritten w → Unwritten (unlock_first region1 w).1
    unfolding unlock_first
    unlock_first-Unwritten w h =
        let w1 = (mem.munlock region1 region_size w).1 in
        ground (
          arith,
          alone.munlock region1 region_size w h,
          agree_words-word r locked_word region1 0 num_pages region1 w1,
        )

    lock_middle-Unwritten : (w : W) → Unwritten w → Unwritten (lock_middle region2 w).1
    unfolding lock_middle
    lock_middle-Unwritten w h =
        let w1 = (mem.mlock (region2 + 4096 * 4) (4096 * 8) w).1 in
        let w2 = write_words partial_word region2 0 num_pages w1 in
        ground (
          arith,
          alone.mlock (region2 + 4096 * 4) (4096 * 8) w h,
          write_words-below r partial_word region2 0 num_pages region1 w1,
          agree_words-word r partial_word region2 0 num_pages region1 w2,
        )

    verify_regions-false : (w : W) → Unwritten w → (verify_regions region1 region2 w).0 ≡ false
    unfolding verify_regions
    verify_regions-false w h =
        let e : region1 + 0 * 4096 ≡ region1 = omega arith in
        ground (arith, agree_words-false r locked_word region1 0 num_pages w (omega arith) (rw e h))

    pub locked_part-fails :
        ((w : W) → is_nonzero (mem.mlock region1 region_size w).0 ≡ true)
        → (s : Process W) → Unwritten s.env
        → status (locked_part region1 region2) s ≡ 1
    unfolding locked_part
    locked_part-fails refuses s h =
        let (a1, w1) = sys.prctl pr_set_pgtable_repl 1 s.env in
        let (a2, w2) = sys.prctl pr_get_pgtable_repl 0 w1 in
        let h2 = alone.prctl pr_get_pgtable_repl 0 w1 (alone.prctl pr_set_pgtable_repl 1 s.env h) in
        let s3 : Process W = record {
          env = (lock_first region1 w2).1;
          trace = get a2 ∷ set 1 a1 ∷ s.trace;
        } in
        let s4 = (lock_third s3).1 in
        let s5 = (lock_all s4).1 in
        let w6 = (unlock_first region1 s5.env).1 in
        let w7 = (lock_middle region2 w6).1 in
        let w8 = (sys.prctl pr_set_pgtable_repl 0 w7).1 in
        let h3 = lock_first-Unwritten refuses w2 h2 in
        let h5 = lock_all-Unwritten s4 (lock_third-Unwritten s3 h3) in
        let h7 = lock_middle-Unwritten w6 (unlock_first-Unwritten s5.env h5) in
        let e = verify_regions-false w8 (alone.prctl pr_set_pgtable_repl 0 w7 h7) in
        let (o, third) = lock_third-goes_on s3 in
        let (b, all) = lock_all-goes_on s4 in grind (arith, e, third, all, unmap_regions-goes_on)

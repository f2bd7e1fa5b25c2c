-- ===== src/Examples/Faults.antt =====
-- The theorems on wrong kernels, at small machines that go wrong in these ways.
use mitosis_tests.Base.{ℕ, ◌+◌, ◌≡◌, ◌≢◌, refl, arith, ltb, leb, if◌then◌else◌, pos, negsuc}
use mitosis_tests.Machine.{status, start, Memory, Remembers}
use mitosis_tests.Examples.Kernel.{
  Demo, off, zeroed, demo_replication, demo_memory, demo_tasks, memory_with, with-Remembers,
}
use mitosis_tests.Discard.Partial
use mitosis_tests.Discard.Debug
use mitosis_tests.Discard.Detection.{debug-accepts_wiped, partial-rejects_wiped}
use mitosis_tests.Locking
use mitosis_tests.Locking.Refused.{LeavesAlone, locked_part-fails}

-- MADV_DONTNEED makes every word zero.
abbrev wiped : ℕ → ℕ → (ℕ → ℕ) → ℕ → ℕ
wiped a n f b = 0

-- mlock() is refused; words and bytes are apart, and memset fills bytes.
abbrev unlockable : Memory Demo
unlockable = record (memory_with zeroed (negsuc 0)) {
  memset = λ a v n d. record d {
    byte = λ b. if leb a b then (if ltb b (a + n) then v else d.byte b) else d.byte b;
  };
}

debug-accepts_wiped_example : status (Debug.main ⦃mem = memory_with wiped (pos 0)⦄) (start off) ≡ 0
debug-accepts_wiped_example =
    debug-accepts_wiped ⦃mem = _⦄ (with-Remembers wiped (pos 0)) (λ a n w. refl) (λ a n b w. refl)
      (λ w. refl) (λ w. (w.next, refl)) off

partial-rejects_wiped_example :
    status (Partial.main ⦃mem = memory_with wiped (pos 0)⦄) (start off) ≡ 1
partial-rejects_wiped_example =
    partial-rejects_wiped ⦃mem = _⦄ (with-Remembers wiped (pos 0)) (λ a n w. refl) (λ a n b w. refl)
      off

unlockable-Remembers : Remembers unlockable (λ d. d.byte) (λ d. d.word)
unlockable-Remembers =
    let r = with-Remembers zeroed (negsuc 0) in
    record {
      load_value = r.load_value;
      load_byte = r.load_byte;
      store_same = r.store_same;
      store_other = r.store_other;
      load32_value = r.load32_value;
      load32_word = r.load32_word;
      store32_same = r.store32_same;
      store32_below = r.store32_below;
      store32_above = r.store32_above;
    }

unlockable-LeavesAlone :
    LeavesAlone demo_replication unlockable (λ d. d.word 4096 ≢ Locking.locked_word 0)
unlockable-LeavesAlone = record {
  prctl = λ option n w h. ground arith;
  malloc = λ n w h. h;
  free = λ a w h. h;
  mmap = λ n w h. h;
  mlock = λ a n w h. h;
  munlock = λ a n w h. h;
  mlockall = λ w h. h;
  load = λ a w h. h;
  memset_mapped = λ n a v m w w' e h. h;
  memset_block = λ n a v m w w' e h. h;
}

locked_part-fails_example :
    status (Locking.locked_part ⦃mem = unlockable⦄ 4096 (4096 + Locking.region_size)) (start off)
    ≡ 1
locked_part-fails_example =
    locked_part-fails ⦃mem = unlockable⦄ unlockable-Remembers 4096 (4096 + Locking.region_size)
      (omega arith) unlockable-LeavesAlone (λ w. refl) (start off) (omega arith)

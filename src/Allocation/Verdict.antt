-- ===== src/Allocation/Verdict.antt =====
-- What the verdict of test5.c means on memory that keeps what is written.
use mitosis_tests.Base.{ℕ, ◌≡◌, false, List, [], ◌∷◌, arith, is_neg}
use mitosis_tests.Machine.{
  Event, set, refused, status, calls, start, Process, ok, Replication, Memory, Remembers,
}
use mitosis_tests.Loops.Pages.{verify_bytes-write_bytes}
use mitosis_tests.Allocation.{main, large, heap_letter, map_letter}

-- No allocation was refused, and replication could be switched on and off.
abbrev pub IsGranted : List Event → Type 0
IsGranted [] = Unit
IsGranted (refused ∷ t) = ⊥
IsGranted (set n a ∷ t) = (is_neg a ≡ false) × IsGranted t
IsGranted (_ ∷ t) = IsGranted t

module _ {W : Type 0} ⦃sys : Replication W⦄ ⦃mem : Memory W⦄ where
  -- On memory that keeps what is written, test5.c passes in every run in which no allocation was refused
  -- and no switch answered an error.
  allocation-passes :
      {byte word : W → ℕ → ℕ} (r : Remembers mem byte word) (w : W)
      → IsGranted (calls main (start w))
      → status main (start w) ≡ 0
  unfolding main
  allocation-passes r w h =
      let heap =
        λ (p : ℕ) (v : W). verify_bytes-write_bytes r heap_letter p 0 10 v (λ k lt. omega arith) in
      let mapped =
        λ (p : ℕ) (v : W). verify_bytes-write_bytes r map_letter p 0 20 v (λ k lt. omega arith) in
      grind (arith, heap, mapped)

  -- Whatever the memory gives back, the part of test5.c on 2 MB goes on to the rest of the test: a byte
  -- that was lost there does not make the test fail.
  large-never_ends : (s : Process W) → (large s).0 ≡ ok tt
  unfolding large
  large-never_ends s = ground arith

-- ===== src/CopyOnWrite/Hygiene.antt =====
-- What test10.c leaves behind.
use mitosis_tests.Base.{ℕ, ◌*◌, arith}
use mitosis_tests.Machine.{
  same, IsSettled, Resource, region, calls, start, Owes, Process, Replication, Memory, Tasks,
}
use mitosis_tests.CopyOnWrite.{num_pages, main, share, finish}

module _ {W : Type 0} ⦃mem : Memory W⦄ ⦃sys : Replication W⦄ ⦃tasks : Tasks W⦄ where
  share-Owes :
      (r : Resource) (a : ℕ) (s : Process W)
      → Owes r (same r (region a (4096 * num_pages))) s
      → Owes r 0 (share a s).1
  unfolding share finish
  share-Owes r a s h = ground arith

  -- Whatever the system answers, test10.c unmaps its mapping in the parent as often as it was granted.
  cow-IsSettled : (w : W) → IsSettled (calls main (start w))
  unfolding main
  cow-IsSettled w r = grind (arith, share-Owes r)

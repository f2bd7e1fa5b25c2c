-- ===== src/Locking/Hygiene.antt =====
-- What test25.c leaves behind.
use mitosis_tests.Base.{ℕ, ◌+◌, arith}
use mitosis_tests.Machine.{
  same, IsSettled, Resource, region, calls, start, Owes, Process, Replication, Memory, Limits,
}
use mitosis_tests.Locking.{
  region_size, main, locked_part, lock_third, lock_all, unmap_regions, raise_limit,
}

module _ {W : Type 0} ⦃mem : Memory W⦄ ⦃sys : Replication W⦄ where
  locked_part-Owes :
      (r : Resource) (a b : ℕ) (s : Process W)
      → Owes r (same r (region a region_size) + same r (region b region_size)) s
      → Owes r 0 (locked_part a b s).1
  unfolding locked_part lock_third lock_all unmap_regions
  locked_part-Owes r a b s h = ground arith

  -- Whatever the system answers, test25.c ends with every mapping and every block given back as often as
  -- it was taken.
  pub locking-IsSettled : ⦃limits : Limits W⦄ (w : W) → IsSettled (calls main (start w))
  unfolding main raise_limit
  locking-IsSettled w r = grind (arith, locked_part-Owes r)

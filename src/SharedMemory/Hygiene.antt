-- ===== src/SharedMemory/Hygiene.antt =====
-- What test8.c leaves behind.
use mitosis_tests.Base.{ℕ, arith}
use mitosis_tests.Machine.{
  same, IsSettled, Resource, region, calls, start, Owes, Process, Replication, Memory, Tasks, Files,
  SharedObjects,
}
use mitosis_tests.SharedMemory.{main, share, check_parent, use_object}

module _ {W : Type 0} ⦃mem : Memory W⦄ ⦃sys : Replication W⦄ ⦃tasks : Tasks W⦄ where
  share-Owes :
      (r : Resource) (a : ℕ) (s : Process W)
      → Owes r (same r (region a 4096)) s
      → Owes r 0 (share a s).1
  unfolding share check_parent
  share-Owes r a s h = ground arith

  module _ ⦃files : Files W⦄ ⦃objects : SharedObjects W⦄ where
    use_object-Owes : (r : Resource) (s : Process W) → Owes r 0 s → Owes r 0 (use_object s).1
    unfolding use_object
    use_object-Owes r s h = ground arith

    -- Whatever the system answers, test8.c gives every mapping, descriptor and name of shared memory back
    -- as often as it was granted, in the parent.
    pub shared_memory-IsSettled : (w : W) → IsSettled (calls main (start w))
    unfolding main
    shared_memory-IsSettled w r = grind (arith, share-Owes r, use_object-Owes r)

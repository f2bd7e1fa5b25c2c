-- ===== src/Suite.antt =====
-- What the tests leave behind, for those with a list of resources of their own.
use mitosis_tests.Base.{ℕ, ◌≡◌, ◌&&◌, false, is_nonzero}
use mitosis_tests.Machine.{
  armed, IsSettled, calls, start, pr_set_pgtable_repl, pr_get_pgtable_repl, Replication, Memory,
  Limits, Files, Policies, Nodes, Signals, Migration, Tasks, SharedObjects,
}
use mitosis_tests.Allocation
use mitosis_tests.Allocation.Hygiene.{allocation-IsSettled}
use mitosis_tests.FileMapping
use mitosis_tests.FileMapping.Hygiene.{file_mapping-IsSettled}
use mitosis_tests.LimitTests
use mitosis_tests.LimitTests.Hygiene.{limit_tests-IsSettled}
use mitosis_tests.Locking
use mitosis_tests.Locking.Hygiene.{locking-IsSettled}
use mitosis_tests.PageMigration
use mitosis_tests.PageMigration.Hygiene.{migration-IsSettled}
use mitosis_tests.PolicyTests
use mitosis_tests.PolicyTests.Hygiene.{policies-IsSettled}
use mitosis_tests.RegionKinds
use mitosis_tests.RegionKinds.Hygiene.{regions-IsSettled}
use mitosis_tests.SharedMemory
use mitosis_tests.SharedMemory.Hygiene.{shared_memory-IsSettled}
use mitosis_tests.Trapping
use mitosis_tests.Trapping.Hygiene.{trapping-IsSettled}

module _ {W : Type 0} ⦃sys : Replication W⦄ ⦃mem : Memory W⦄ ⦃limits : Limits W⦄ ⦃files : Files W⦄
    ⦃policies : Policies W⦄ ⦃nodes : Nodes W⦄ ⦃signals : Signals W⦄ ⦃migration : Migration W⦄
    ⦃tasks : Tasks W⦄ ⦃objects : SharedObjects W⦄ where
  -- Whatever the system answers, on every path through test8.c, test23.c, test25.c, test29.c, test31.c and
  -- test32.c, each of which starts with no call made: every mapping, block, descriptor, name, limit and
  -- signal handling is given back as often as it was taken. So it is in test5.c, test28.c and test30.c,
  -- which moreover end with replication switched on, not asked to be off since, at most where switching on
  -- left the mask 0, and test5.c never.
  pub suite-IsSettled :
      (buffer stack_buffer dynamic_stack : ℕ) (w : W)
      → let (mask, _) = sys.prctl pr_get_pgtable_repl 0 (sys.prctl pr_set_pgtable_repl 1 w).1 in
        IsSettled (calls SharedMemory.main (start w))
        × IsSettled (calls PageMigration.main (start w))
        × IsSettled (calls Locking.main (start w))
        × IsSettled (calls FileMapping.main (start w))
        × IsSettled (calls (LimitTests.main buffer) (start w))
        × IsSettled (calls Trapping.main (start w))
        × (IsSettled (calls Allocation.main (start w))
            × (armed (calls Allocation.main (start w)) ≡ false))
        × (IsSettled (calls (RegionKinds.main stack_buffer dynamic_stack) (start w))
            × ((armed (calls (RegionKinds.main stack_buffer dynamic_stack) (start w))
                  && is_nonzero mask)
                ≡ false))
        × (IsSettled (calls PolicyTests.main (start w))
            × ((armed (calls PolicyTests.main (start w)) && is_nonzero mask) ≡ false))
  suite-IsSettled buffer stack_buffer dynamic_stack w = (
    shared_memory-IsSettled w,
    migration-IsSettled w,
    locking-IsSettled w,
    file_mapping-IsSettled w,
    limit_tests-IsSettled buffer w,
    trapping-IsSettled w,
    allocation-IsSettled w,
    regions-IsSettled stack_buffer dynamic_stack w,
    policies-IsSettled w,
  )

-- ===== src/Examples/Hygiene.antt =====
-- The ends of several tests on the small machine.
use mitosis_tests.Base.{◌≡◌, ◌&&◌, true, false, pos}
use mitosis_tests.Machine.{IsSettled, armed, Migration, SharedObjects, calls, start}
use mitosis_tests.Base.{some}
use mitosis_tests.Examples.Kernel.{
  Demo, off, demo_replication, demo_memory, demo_limits, demo_files, demo_policies, demo_nodes,
  demo_tasks,
}
use mitosis_tests.Examples.Signals.{demo_signals}
use mitosis_tests.Suite.{suite-IsSettled}
use mitosis_tests.Allocation
use mitosis_tests.FileMapping
use mitosis_tests.LimitTests
use mitosis_tests.Locking
use mitosis_tests.PageMigration
use mitosis_tests.PolicyTests
use mitosis_tests.RegionKinds
use mitosis_tests.SharedMemory
use mitosis_tests.Trapping

instance abbrev demo_migration : Migration Demo
demo_migration = record { move_pages = λ pages nodes d. (pos 0, d) }

instance abbrev demo_objects : SharedObjects Demo
demo_objects = record { shm_open = λ d. (some 4, d); ftruncate = λ fd n d. d; shm_unlink = λ d. d }

suite-IsSettled_example :
    IsSettled (calls SharedMemory.main (start off))
    × IsSettled (calls PageMigration.main (start off))
    × IsSettled (calls Locking.main (start off))
    × IsSettled (calls FileMapping.main (start off))
    × IsSettled (calls (LimitTests.main 64) (start off))
    × IsSettled (calls Trapping.main (start off))
    × (IsSettled (calls Allocation.main (start off))
        × (armed (calls Allocation.main (start off)) ≡ false))
    × (IsSettled (calls (RegionKinds.main 64 8256) (start off))
        × ((armed (calls (RegionKinds.main 64 8256) (start off)) && true) ≡ false))
    × (IsSettled (calls PolicyTests.main (start off))
        × ((armed (calls PolicyTests.main (start off)) && true) ≡ false))
suite-IsSettled_example = suite-IsSettled 64 64 8256 off

-- ===== src/Allocation/Hygiene.antt =====
-- What a run of test5.c leaves behind.
use mitosis_tests.Base.{◌≡◌, false, arith}
use mitosis_tests.Machine.{armed, IsSettled, calls, start, Replication, Memory}
use mitosis_tests.Allocation.{main}

module _ {W : Type 0} ⦃sys : Replication W⦄ ⦃mem : Memory W⦄ where
  -- Whatever the system answers, test5.c ends with every mapping and every block given back as often as it
  -- was taken, and without having switched replication on since it last asked for it to be switched off.
  pub allocation-IsSettled :
      (w : W) → IsSettled (calls main (start w)) × (armed (calls main (start w)) ≡ false)
  unfolding main
  allocation-IsSettled w = (λ r. ground arith, ground arith)

-- ===== src/Overlap/Hygiene.antt =====
-- What test17.c leaves behind.
use mitosis_tests.Base.{arith}
use mitosis_tests.Machine.{IsSettled, calls, start, Replication, Memory}
use mitosis_tests.Overlap.{main, body}

module _ {W : Type 0} ⦃mem : Memory W⦄ ⦃sys : Replication W⦄ where
  -- Whatever the system answers, test17.c unmaps its mapping as often as it was granted.
  overlap-IsSettled : (w : W) → IsSettled (calls main (start w))
  unfolding main body
  overlap-IsSettled w r = ground arith

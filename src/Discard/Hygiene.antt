-- ===== src/Discard/Hygiene.antt =====
-- What test16.c leaves behind.
use mitosis_tests.Base.{◌≡◌, ◌&&◌, not, Bool, true, false, List, [], ◌∷◌, arith}
use mitosis_tests.Machine.{armed, IsSettled, Event, refused, calls, start, Replication, Memory}
use mitosis_tests.Discard.Partial

-- An allocation was refused.
abbrev was_refused : List Event → Bool
was_refused [] = false
was_refused (refused ∷ t) = true
was_refused (_ ∷ t) = was_refused t

module _ {W : Type 0} ⦃mem : Memory W⦄ ⦃sys : Replication W⦄ where
  -- Whatever the system answers, test16.c ends with every resource given back as often as it was taken,
  -- and with replication switched on, not asked to be off since, only if an allocation was refused.
  partial-IsSettled :
      (w : W)
      → let t = calls Partial.main (start w) in
        IsSettled t × ((armed t && not (was_refused t)) ≡ false)
  unfolding Partial.main Partial.body
  partial-IsSettled w = (λ r. ground arith, ground arith)

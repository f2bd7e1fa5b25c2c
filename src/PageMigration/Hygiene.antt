-- ===== src/PageMigration/Hygiene.antt =====
-- What test23.c leaves behind.
use mitosis_tests.Base.{ℕ, Bool, arith}
use mitosis_tests.Machine.{
  same, IsSettled, Resource, region, calls, start, Owes, Process, Replication, Memory, Nodes,
  Policies, Migration,
}
use mitosis_tests.PageMigration.{area_size, migrate, use_policy, finish, run, main}

module _ {W : Type 0} ⦃mem : Memory W⦄ ⦃migration : Migration W⦄ ⦃sys : Replication W⦄
    ⦃policies : Policies W⦄ where
  finish-Owes :
      (r : Resource) (pass : Bool) (a : ℕ) (s : Process W)
      → Owes r (same r (region a area_size)) s
      → Owes r 0 (finish pass a s).1
  unfolding finish
  finish-Owes r pass a s h = ground arith

  -- Whatever the system answers, test23.c unmaps its mappings as often as they were granted.
  pub migration-IsSettled : ⦃nodes : Nodes W⦄ (w : W) → IsSettled (calls main (start w))
  unfolding main run use_policy migrate
  migration-IsSettled w r = grind (arith, finish-Owes r)

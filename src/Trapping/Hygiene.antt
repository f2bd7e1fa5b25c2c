-- ===== src/Trapping/Hygiene.antt =====
-- What test32.c leaves behind.
use mitosis_tests.Base.{ℕ, ◌+◌, arith}
use mitosis_tests.Machine.{
  same, IsSettled, Resource, handling, fault, segv, bus, calls, start, Owes, Process, Replication,
  Memory, Nodes, Signals, ok, ended, Outcome,
}
use mitosis_tests.Trapping.{
  Globals, handler, jump, install, unmapped, out_of_reach, read_only, run, main,
}

-- the handlings of both signals
abbrev both : Resource → ℕ
both r = same r (handling (fault segv)) + same r (handling (fault bus))

-- A part that has replaced both handlings as it goes on, and has restored them where it leaves.
abbrev Holds : {W A : Type 0} → Resource → Outcome A × Process W → Type 0
Holds r (ok a, s) = Owes r (both r) s
Holds r (ended n, s) = Owes r 0 s

module _ {W : Type 0} ⦃signals : Signals W⦄ ⦃sys : Replication W⦄ ⦃mem : Memory W⦄ where
  unmapped-Holds :
      (r : Resource) (g : Globals) (s : Process W) → Owes r (both r) s → Holds r (unmapped g s)
  unfolding unmapped jump handler
  unmapped-Holds r g s h = ground arith

  out_of_reach-Holds :
      (r : Resource) (g : Globals) (s : Process W) → Owes r (both r) s → Holds r (out_of_reach g s)
  unfolding out_of_reach jump handler
  out_of_reach-Holds r g s h = ground arith

  read_only-Holds :
      (r : Resource) (g : Globals) (s : Process W) → Owes r (both r) s → Holds r (read_only g s)
  unfolding read_only jump handler
  read_only-Holds r g s h = ground arith

  run-Owes : (r : Resource) (s : Process W) → Owes r (both r) s → Owes r 0 (run s).1
  unfolding run
  run-Owes r s h = grind (arith, unmapped-Holds r, out_of_reach-Holds r, read_only-Holds r)

  -- Whatever the system answers, and whichever signals arrive, test32.c restores the handling of a signal
  -- as often as it has replaced it, and unmaps every mapping that it was granted, also where it fails.
  pub trapping-IsSettled : ⦃nodes : Nodes W⦄ (w : W) → IsSettled (calls main (start w))
  unfolding main install
  trapping-IsSettled w r = grind (arith, run-Owes r)

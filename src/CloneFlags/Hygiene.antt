-- ===== src/CloneFlags/Hygiene.antt =====
-- What test26.c leaves behind.
use mitosis_tests.Base.{ℕ, ◌≢◌, Bool, false, arith, pos}
use mitosis_tests.Machine.{
  same, IsSettled, Resource, block, calls, start, Owes, Process, Outcome, ok, ended, Replication,
  Memory, Tasks, Nodes,
}
use mitosis_tests.CloneFlags.{main, clones, clone_vm, clone_plain, child_func}

-- While the process runs it owes the stack for its children, and nothing when it has ended.
abbrev OwesStack : {W : Type 0} → Resource → ℕ → Outcome (Unit {0}) × Process W → Type 0
OwesStack r stack (ok a, s) = Owes r (same r (block stack)) s
OwesStack r stack (ended n, s) = Owes r 0 s

module _ {W : Type 0} ⦃sys : Replication W⦄ ⦃mem : Memory W⦄ where
  -- The child gives back what it takes, on every path.
  child_func-IsSettled : (w : W) → IsSettled (calls child_func (start w))
  unfolding child_func
  child_func-IsSettled w r = ground arith

  module _ ⦃tasks : Tasks W⦄ (no_child : (b : Bool) (w : W) → (tasks.clone b w).pid ≢ pos 0)
      (stack : ℕ) (s : Process W) (r : Resource) (h : Owes r (same r (block stack)) s) where
    clone_vm-OwesStack : OwesStack r stack (clone_vm stack s)
    unfolding clone_vm
    clone_vm-OwesStack = ground arith

    clone_plain-Owes : Owes r 0 (clone_plain stack s).1
    unfolding clone_plain
    clone_plain-Owes = ground (arith, no_child false s.env)

  module _ ⦃tasks : Tasks W⦄ (no_child : (b : Bool) (w : W) → (tasks.clone b w).pid ≢ pos 0) where
    clones-Owes :
        (stack : ℕ) (s : Process W) (r : Resource)
        → Owes r (same r (block stack)) s
        → Owes r 0 (clones stack s).1
    unfolding clones
    clones-Owes stack s r h = ground (
      arith,
      clone_vm-OwesStack no_child stack s r h,
      clone_plain-Owes no_child stack (clone_vm stack s).1 r,
    )

  module _ ⦃tasks : Tasks W⦄ ⦃nodes : Nodes W⦄ where
    -- Where clone() does not return 0 in the parent, test26.c ends with every block given back as often as
    -- it was taken, whatever else the system answers.
    clone_flags-IsSettled :
        (no_child : (b : Bool) (w : W) → (tasks.clone b w).pid ≢ pos 0) (w : W)
        → IsSettled (calls main (start w))
    unfolding main
    clone_flags-IsSettled no_child w r = grind (arith, clones-Owes no_child)

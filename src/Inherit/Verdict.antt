-- ===== src/Inherit/Verdict.antt =====
-- What the verdict of test2.c means.
use mitosis_tests.Base.{ℕ, ◌≡◌, ◌↔◌, true, false, List, [], ◌∷◌, arith, is_neg, is_positive, ℤ, pos}
use mitosis_tests.Machine.{
  Event, set, get, status, calls, start, pr_set_pgtable_repl, pr_get_pgtable_repl, Replication,
  Tasks, exited, Switches, Forks,
}
use mitosis_tests.Inherit.{main, child}

-- The calls, newest first, of a child that found replication off, could switch it on, and then
-- saw a nonempty mask.
abbrev pub IsFreshChild : List Event → Type 0
IsFreshChild (get mask ∷ set n on ∷ get inherited ∷ []) =
    (inherited ≡ pos 0) × (n ≡ 1) × (is_neg on ≡ false) × (is_positive mask ≡ true)
IsFreshChild _ = ⊥

-- The calls of a parent that could switch replication on and saw a nonempty mask both before the
-- fork and after the child's end.
abbrev pub IsSteadyParent : List Event → Type 0
IsSteadyParent (set n off ∷ get after ∷ get before ∷ set m on ∷ []) =
    (n ≡ 0)
    × (m ≡ 1)
    × (is_neg on ≡ false)
    × (is_positive before ≡ true)
    × (is_positive after ≡ true)
IsSteadyParent _ = ⊥

module _ {W : Type 0} ⦃sys : Replication W⦄ where
  child-passes_iff : (w : W) → (status child (start w) ≡ 0) ↔ IsFreshChild (calls child (start w))
  unfolding child
  child-passes_iff w = (λ h. ground arith, λ h. ground arith)

  module _ ⦃tasks : Tasks W⦄ where
    -- the world in which the child of `main` begins
    abbrev pub child_world : W → W
    child_world w =
        (tasks.fork (sys.prctl pr_get_pgtable_repl 0 (sys.prctl pr_set_pgtable_repl 1 w).1).1).child

    -- Where waitpid() reports the status with which the child ended, test2.c passes only if the parent
    -- could switch replication on and saw a nonempty mask before the fork and after the child's end, and
    -- the child found the mask 0, could switch replication on itself and then saw a nonempty mask.
    pub inherit-passes_only :
        (truthful : (pid : ℤ) (n : ℕ) (c v : W) → (tasks.waitpid pid n c v).0 ≡ exited n) (w : W)
        → status main (start w) ≡ 0
        → IsSteadyParent (calls main (start w)) × IsFreshChild (calls child (start (child_world w)))
    unfolding main
    inherit-passes_only truthful w h =
        (ground arith, (child-passes_iff (child_world w)).0 (grind (arith, truthful)))

    module _ {mask : W → ℕ} (switches : Switches sys mask) (forks : Forks tasks mask) where
      child-passes : (w : W) → mask w ≡ 0 → status child (start w) ≡ 0
      unfolding child
      child-passes w h =
          grind
            (arith, switches.on_answer, switches.on_mask, switches.get_answer, switches.get_mask)

      -- On a kernel that always grants switching replication on, to a nonempty mask, and off, and whose
      -- fork() always succeeds, gives the child the empty mask and keeps the parent's, and where waitpid()
      -- reports the status with which the child ended and keeps the mask: test2.c passes from every state.
      pub inherit-passes : (w : W) → status main (start w) ≡ 0
      unfolding main
      inherit-passes w =
          let w1 = (sys.prctl pr_set_pgtable_repl 1 w).1 in
          let w2 = (sys.prctl pr_get_pgtable_repl 0 w1).1 in
          let f = tasks.fork w2 in
          let n = status child (start f.child) in
          let last = (child (start f.child)).1.env in
          let w3 = (tasks.waitpid f.pid n last f.parent).1 in
          ground (
            arith,
            switches.on_answer w,
            switches.on_mask w,
            switches.get_answer w1,
            switches.get_mask w1,
            forks.pid_positive w2,
            forks.parent_mask w2,
            child-passes f.child (forks.child_mask w2),
            forks.wait_status f.pid n last f.parent,
            forks.wait_mask f.pid n last f.parent,
            switches.get_answer w3,
          )

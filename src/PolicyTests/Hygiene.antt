-- ===== src/PolicyTests/Hygiene.antt =====
-- What test30.c leaves behind.
use mitosis_tests.Base.{ℕ, ◌≡◌, ◌&&◌, false, [], ◌∷◌, is_nonzero, arith}
use mitosis_tests.Machine.{
  set, get, file, pr_set_pgtable_repl, pr_get_pgtable_repl, armed, IsSettled, Resource, calls,
  start, Owes, Process, Outcome, ok, ended, Replication, Memory, Nodes, Policy, Policies,
}
use mitosis_tests.PolicyTests.{use_block, under_policy, bind_block, tests, main}

-- A part that gives back what it takes, and that ends the process only with replication asked to be
-- off and a status that is not 0.
abbrev Tidy : {W : Type 0} → Resource → Outcome (Unit {0}) × Process W → Type 0
Tidy r (ok a, s) = Owes r 0 s
Tidy r (ended n, s) = Owes r 0 s × (armed s.trace ≡ false) × (n ≡ 1)

module _ {W : Type 0} ⦃mem : Memory W⦄ ⦃sys : Replication W⦄ (r : Resource) where
  use_block-Tidy : (v : ℕ) (s : Process W) → Owes r 0 s → Tidy r (use_block v s)
  unfolding use_block
  use_block-Tidy v s h = ground arith

  module _ ⦃policies : Policies W⦄ where
    under_policy-Tidy :
        (p : Policy) (mask maxnode v : ℕ) (s : Process W)
        → Owes r 0 s
        → Tidy r (under_policy p mask maxnode v s)
    unfolding under_policy
    under_policy-Tidy p mask maxnode v s h = grind (arith, use_block-Tidy)

    bind_block-Tidy : (maxnode : ℕ) (s : Process W) → Owes r 0 s → Tidy r (bind_block maxnode s)
    unfolding bind_block
    bind_block-Tidy maxnode s h = ground arith

    tests_lem :
        (n : ℕ) (s : Process W)
        → Owes r 0 s
        → Owes r 0 (tests n s).1 × (armed (tests n s).1.trace ≡ false)
    unfolding tests
    tests_lem n s h = grind (arith, use_block-Tidy, under_policy-Tidy, bind_block-Tidy)

module _ {W : Type 0} ⦃mem : Memory W⦄ ⦃sys : Replication W⦄ ⦃policies : Policies W⦄
    ⦃nodes : Nodes W⦄ where
  -- Whatever the system answers, test30.c ends with every block freed as often as it was allocated, and
  -- with replication switched on, not asked to be off since, only if its first GET answered 0.
  pub policies-IsSettled :
      (w : W)
      → let t = calls main (start w) in
        let (mask, _) = sys.prctl pr_get_pgtable_repl 0 (sys.prctl pr_set_pgtable_repl 1 w).1 in
        IsSettled t × ((armed t && is_nonzero mask) ≡ false)
  unfolding main
  policies-IsSettled w =
      let (a1, w1) = sys.prctl pr_set_pgtable_repl 1 w in
      let (a2, w2) = sys.prctl pr_get_pgtable_repl 0 w1 in
      let n = nodes.numa_num_configured_nodes w in
      let s : Process W = record { env = w2; trace = get a2 ∷ set 1 a1 ∷ [] } in
      (λ r. grind (arith, tests_lem r), ground (arith, tests_lem file n s))

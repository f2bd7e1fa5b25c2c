-- ===== src/PolicyTests.antt =====
-- test30.c: allocation under the NUMA memory policies.
pub mod Hygiene
use mitosis_tests.Base.{
  ℕ, ◌+◌, ◌-◌, ◌*◌, ◌^◌, Bool, true, false, not, ltb, ◌==◌, is_neg, is_nonzero,
}
use mitosis_tests.Machine.{
  Program, Quiet, pure, exit, quietly, ◌>>=◌, ◌>>◌, when, require, set_repl, get_repl, disable,
  Replication, malloc, free, effect, Memory, Nodes, Policy, policy_default, bind, interleave,
  preferred, Policies,
}

-- 8 MB
abbrev pub alloc_size : ℕ
alloc_size = 8 * 1024 * 1024

module _ {W : Type 0} ⦃mem : Memory W⦄ where
  -- `!(p[0] != v || p[alloc_size-1] != v)`, which reads the last byte only if the first is right
  unfoldable pub ends_hold : ℕ → ℕ → Quiet W Bool
  ends_hold v a w =
      let (x, w1) = mem.load a w in
      let last = mem.load (a + alloc_size - 1) w1 in
      elim (x == v) [ true ↦ (last.0 == v, last.1) | false ↦ (false, w1) ]

  module _ ⦃sys : Replication W⦄ where
    -- a block that is filled, checked and freed
    unfoldable pub use_block : ℕ → Program W (Unit {0})
    use_block v = do
      found ← malloc alloc_size
      test_mem ← require found (do disable; exit 1)
      effect (mem.memset test_mem v alloc_size)
      good ← quietly (ends_hold v test_mem)
      when (not good) (do free test_mem; disable; exit 1)
      free test_mem

    module _ ⦃policies : Policies W⦄ where
      -- "Test 2" to "Test 4": a block under a policy, if that can be set
      unfoldable pub under_policy : Policy → ℕ → ℕ → ℕ → Program W (Unit {0})
      under_policy policy nodemask maxnode v = do
        ret ← quietly (policies.set_mempolicy policy nodemask maxnode)
        when (not (is_neg ret)) (use_block v)

      -- "Test 5": mbind on a block in use
      unfoldable pub bind_block : ℕ → Program W (Unit {0})
      bind_block maxnode = do
        found ← malloc alloc_size
        test_mem ← require found (do disable; exit 1)
        effect (mem.memset test_mem 0x55 alloc_size)
        quietly (policies.mbind test_mem alloc_size 1 maxnode)
        good ← quietly (ends_hold 0x55 test_mem)
        when (not good) (do free test_mem; disable; exit 1)
        free test_mem

      unfoldable pub tests : ℕ → Program W (Unit {0})
      tests num_nodes = do
        use_block 0x11
        under_policy bind 1 (num_nodes + 1) 0x22
        under_policy interleave (2 ^ num_nodes - 1) (num_nodes + 1) 0x33
        under_policy preferred 1 (num_nodes + 1) 0x44
        quietly (policies.set_mempolicy policy_default 0 0)
        bind_block (num_nodes + 1)
        repl_status ← get_repl
        when (not (is_nonzero repl_status)) (do disable; exit 1)
        disable
        exit 0

      unfoldable pub main : ⦃nodes : Nodes W⦄ → Program W (Unit {0})
      main ⦃nodes⦄ = do
        available ← quietly (λ w. (nodes.numa_available w, w))
        when (is_neg available) (exit 0)
        num_nodes ← quietly (λ w. (nodes.numa_num_configured_nodes w, w))
        when (ltb num_nodes 2) (exit 0)
        ret ← set_repl 1
        when (is_neg ret) (exit 1)
        repl_status ← get_repl
        when (not (is_nonzero repl_status)) (exit 1)
        tests num_nodes

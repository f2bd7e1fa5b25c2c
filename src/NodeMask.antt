-- ===== src/NodeMask.antt =====
-- test4.c: replication on chosen nodes.
pub mod Verdict
use mitosis_tests.Base.{
  ℕ, ◌-◌, ◌%◌, ◌^◌, not, ltb, leb, ◌==◌, ◌!=◌, is_neg, is_nonzero, ℤ, pos, negsuc,
}
use mitosis_tests.Machine.{
  Program, exit, quietly, ◌>>=◌, ◌>>◌, when, set_repl, get_repl, disable, Replication, Nodes,
}

-- The bits of a `long`.
unfoldable pub bits : ℤ → ℕ
bits (pos n) = n
bits (negsuc n) = 2 ^ 64 - 1 - n

module _ {W : Type 0} ⦃sys : Replication W⦄ ⦃nodes : Nodes W⦄ where
  -- "Test 1": node 0 alone, mask 1UL << 0
  unfoldable pub one_node : Program W (Unit {0})
  unfolding bits
  one_node = do
    ret ← set_repl 1
    when (not (is_nonzero ret))
        (do ret ← get_repl; when (is_neg ret) (exit 1); when (bits ret % 2 == 0) (exit 1))
    disable

  -- "Test 2": nodes 0 and 1
  unfoldable pub two_nodes : Program W (Unit {0})
  unfolding bits
  two_nodes = do
    ret ← set_repl 3
    when (is_neg ret) (exit 1)
    ret ← get_repl
    when (is_neg ret) (exit 1)
    when (bits ret % 4 != 3) (exit 1)
    disable

  -- "Test 3": node 7, which should not be there
  unfoldable pub missing_node : Program W (Unit {0})
  missing_node = do ret ← set_repl (2 ^ 7); when (not (is_nonzero ret)) disable

  -- "Test 4": arg2 = 1; the count of the bits of `ret` only chooses what is printed
  unfoldable pub all_nodes : Program W (Unit {0})
  all_nodes = do ret ← set_repl 1; when (is_neg ret) (exit 1); ret ← get_repl; disable; exit 0

  -- the four tests in turn
  unfoldable pub tests : ℕ → Program W (Unit {0})
  tests num_nodes = do
    one_node
    when (leb 2 num_nodes) two_nodes
    when (ltb num_nodes 8) missing_node
    all_nodes

  unfoldable pub main : Program W (Unit {0})
  main = do
    available ← quietly (λ w. (nodes.numa_available w, w))
    when (is_neg available) (exit 0)
    num_nodes ← quietly (λ w. (nodes.numa_num_configured_nodes w, w))
    when (ltb num_nodes 2) (exit 0)
    tests num_nodes

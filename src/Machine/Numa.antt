-- ===== src/Machine/Numa.antt =====
-- libnuma.
use mitosis_tests.Base.{ℕ, Option, List, ℤ}

pub record Nodes (W : Type 0) : Type 0 where
  pub numa_available : W → ℤ
  pub numa_num_configured_nodes : W → ℕ

pub data Policy : Type 0 where
  policy_default bind interleave preferred : Policy

pub record Policies (W : Type 0) : Type 0 where
  -- set_mempolicy(policy, &mask, maxnode)
  pub set_mempolicy : Policy → ℕ → ℕ → W → ℤ × W
  -- mbind(address, count, MPOL_BIND, &mask, maxnode, MPOL_MF_MOVE)
  pub mbind : ℕ → ℕ → ℕ → ℕ → W → ℤ × W

pub record Migration (W : Type 0) : Type 0 where
  -- move_pages(0, count, pages, nodes, status, flags): `none` for nodes is NULL, with flags 0, which only
  -- asks; the array status is only printed by the test
  pub move_pages : List ℕ → Option (List ℕ) → W → ℤ × W

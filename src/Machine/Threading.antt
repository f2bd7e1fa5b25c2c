-- ===== src/Machine/Threading.antt =====
-- Threads of one process, and the node on which each runs. A thread is named by a number.
use mitosis_tests.Base.{ℕ, Bool, false, ◌==◌, ℤ, pos, negsuc}
use mitosis_tests.Machine.Monad.{Quiet}

pub record Threads (W : Type 0) : Type 0 where
  -- pthread_create(&thread, NULL, function, arg) == 0
  pub pthread_create : W → Bool × W
  pub numa_allocate_nodemask : W → ℕ × W
  pub numa_bitmask_setbit : (mask node : ℕ) → W → W
  pub numa_free_nodemask : (mask : ℕ) → W → W
  -- numa_run_on_node_mask(mask), called by a thread
  pub numa_run_on_node_mask : (thread mask : ℕ) → W → ℤ × W
  -- sched_getcpu(), called by a thread
  pub sched_getcpu : (thread : ℕ) → W → ℤ × W
  pub numa_node_of_cpu : ℤ → W → ℤ × W

-- The processors of the nodes, and on which of them a thread may run.
pub record Affinity (W : Type 0) : Type 0 where
  pub numa_allocate_cpumask : W → ℕ × W
  pub numa_node_to_cpus : (node mask : ℕ) → W → ℤ × W
  pub numa_num_configured_cpus : W → ℕ
  pub numa_bitmask_isbitset : (mask cpu : ℕ) → W → Bool
  pub numa_free_cpumask : (mask : ℕ) → W → W
  -- sched_setaffinity(0, sizeof(cpuset), &cpuset), called by a thread
  pub sched_setaffinity : (thread : ℕ) → (cpuset : ℕ → Bool) → W → ℤ × W

-- `actual_node == node`
abbrev pub is_node : ℤ → ℕ → Bool
is_node (pos n) node = n == node
is_node (negsuc n) node = false

-- numa_node_of_cpu(sched_getcpu())
unfoldable pub actual_node : {W : Type 0} → ⦃threads : Threads W⦄ → ℕ → Quiet W ℤ
actual_node ⦃threads⦄ thread w =
    let (cpu, w1) = threads.sched_getcpu thread w in threads.numa_node_of_cpu cpu w1

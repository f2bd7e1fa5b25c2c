-- ===== src/ForkStress/Calls.antt =====
-- `check_replication`, `pin_to_node` and `child_process` of test35.c.
use mitosis_tests.Base.{
  ℕ, zero, suc, ◌+◌, ◌%◌, Bool, true, false, not, Option, none, some, ◌∷◌, ◌==◌, ◌!=◌,
  if◌then◌else◌, is_neg, is_nonzero, is_positive, to_int, ℤ, pos, negsuc,
}
use mitosis_tests.Machine.{
  get, Quiet, Program, ok, pure, exit, ◌>>=◌, ◌>>◌, when, either, set_repl, disable,
  pr_get_pgtable_repl, Replication, malloc, free, effect, Memory, Affinity,
}

-- `expected >= 0 && status != expected`, where `none` is a negative number
abbrev pub is_unexpected : Option ℕ → ℤ → Bool
is_unexpected none status = false
is_unexpected (some e) (pos n) = n != e
is_unexpected (some e) (negsuc n) = true

module _ {W : Type 0} where
  -- `for (int cpu = 0; ...) if (...) CPU_SET(cpu, &cpuset);`, `n` rounds
  unfoldable pub cpus_of : ⦃cpus : Affinity W⦄ → (mask n : ℕ) → W → ℕ → Bool
  cpus_of mask zero w cpu = false
  cpus_of ⦃cpus⦄ mask (suc n) w cpu =
      if cpu == n then cpus.numa_bitmask_isbitset mask cpu w else cpus_of mask n w cpu

  unfoldable pub pin_to_node : ⦃cpus : Affinity W⦄ → (thread node : ℕ) → Quiet W ℤ
  pin_to_node ⦃cpus⦄ thread node w =
      let (mask, w1) = cpus.numa_allocate_cpumask w in
      let (found, w2) = cpus.numa_node_to_cpus node mask w1 in
      let w3 = cpus.numa_free_cpumask mask w2 in
      let cpuset = cpus_of mask (cpus.numa_num_configured_cpus w2) w2 in
      let (ret, w4) = cpus.sched_setaffinity thread cpuset w3 in
      if is_neg found then (negsuc 0, w3) else (if is_neg ret then negsuc 0 else pos 0, w4)

  module _ ⦃sys : Replication W⦄ where
    unfoldable pub check_replication : Option ℕ → Program W ℤ
    check_replication expected p =
        let (status, w) = sys.prctl pr_get_pgtable_repl 0 p.env in
        let seen =
          if is_neg status
          then negsuc 0
          else if is_unexpected expected status
          then negsuc 0
          else to_int status in
        (ok seen, record { env = w; trace = get status ∷ p.trace })

    module _ ⦃mem : Memory W⦄ where
      -- `for (...; i < 16384; i++) mem[i] = i & 0xFF;`, `n` rounds
      unfoldable pub number_bytes : (a i n : ℕ) → W → W
      number_bytes a i zero w = w
      number_bytes a i (suc n) w = number_bytes a (i + 1) n (mem.store (a + i) (i % 256) w)

      -- `exit(child_process(i, 1))`
      unfoldable pub child_process : Program W (Unit {0})
      child_process = do
        status ← check_replication (some 0)
        when (is_nonzero status) (exit 1)
        ret ← set_repl 1
        when (is_neg ret) (exit 1)
        status ← check_replication none
        when (not (is_positive status)) (exit 1)
        found ← malloc 16384
        either found (pure tt) (λ a. do effect (number_bytes a 0 16384); free a)
        disable
        exit 0

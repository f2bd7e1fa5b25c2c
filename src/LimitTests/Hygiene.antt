-- ===== src/LimitTests/Hygiene.antt =====
-- What test31.c leaves behind.
use mitosis_tests.Base.{ℕ, arith}
use mitosis_tests.Machine.{
  IsSettled, Resource, calls, start, Owes, Process, Replication, Memory, Nodes, Limits,
}
use mitosis_tests.LimitTests.{
  default_limits, data_limit, stack_limit, process_limit, time_limit, tests, main,
}

module _ {W : Type 0} ⦃sys : Replication W⦄ ⦃limits : Limits W⦄ ⦃mem : Memory W⦄
    (r : Resource) where
  default_limits-Owes : (s : Process W) → Owes r 0 s → Owes r 0 (default_limits s).1
  unfolding default_limits
  default_limits-Owes s h = ground arith

  data_limit-Owes : (s : Process W) → Owes r 0 s → Owes r 0 (data_limit s).1
  unfolding data_limit
  data_limit-Owes s h = ground arith

  stack_limit-Owes : (b : ℕ) (s : Process W) → Owes r 0 s → Owes r 0 (stack_limit b s).1
  unfolding stack_limit
  stack_limit-Owes b s h = ground arith

  process_limit-Owes : (s : Process W) → Owes r 0 s → Owes r 0 (process_limit s).1
  unfolding process_limit
  process_limit-Owes s h = ground arith

  time_limit-Owes : (s : Process W) → Owes r 0 s → Owes r 0 (time_limit s).1
  unfolding time_limit
  time_limit-Owes s h = ground arith

  tests-Owes : (b : ℕ) (s : Process W) → Owes r 0 s → Owes r 0 (tests b s).1
  unfolding tests
  tests-Owes b s h = grind (
    arith, default_limits-Owes, data_limit-Owes, stack_limit-Owes, process_limit-Owes,
    time_limit-Owes,
  )

module _ {W : Type 0} ⦃sys : Replication W⦄ ⦃limits : Limits W⦄ ⦃mem : Memory W⦄
    ⦃nodes : Nodes W⦄ where
  -- Whatever the system answers, test31.c ends with every limit that it lowered restored, and every block
  -- freed, as often as it was lowered or allocated.
  pub limit_tests-IsSettled : (buffer : ℕ) (w : W) → IsSettled (calls (main buffer) (start w))
  unfolding main
  limit_tests-IsSettled buffer w r = ground (arith, tests-Owes r buffer (start w))

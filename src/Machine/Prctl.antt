-- ===== src/Machine/Prctl.antt =====
-- prctl(PR_SET_PGTABLE_REPL) and prctl(PR_GET_PGTABLE_REPL), which every test defines by the numbers
-- 100 and 101.
use mitosis_tests.Base.{ℕ, ℤ}
use mitosis_tests.Machine.Events.{set, get}
use mitosis_tests.Machine.Monad.{Program, pure, observed, ◌>>◌}

pub record Replication (W : Type 0) : Type 0 where
  -- prctl(option, arg2, 0, 0, 0)
  pub prctl : ℕ → ℕ → W → ℤ × W

abbrev pub pr_set_pgtable_repl : ℕ
pr_set_pgtable_repl = 100

abbrev pub pr_get_pgtable_repl : ℕ
pr_get_pgtable_repl = 101

module _ {W : Type 0} ⦃sys : Replication W⦄ where
  abbrev pub set_repl : ℕ → Program W ℤ
  set_repl n = observed (sys.prctl pr_set_pgtable_repl n) (set n)

  abbrev pub get_repl : Program W ℤ
  get_repl = observed (sys.prctl pr_get_pgtable_repl 0) get

  -- `prctl(PR_SET_PGTABLE_REPL, 0, 0, 0, 0);` with its result dropped
  abbrev pub disable : Program W (Unit {0})
  disable = do set_repl 0; pure tt

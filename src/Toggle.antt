-- ===== src/Toggle.antt =====
-- test1.c: replication is switched on and off again.
pub mod Verdict
use mitosis_tests.Base.{not, is_neg, is_nonzero}
use mitosis_tests.Machine.{Program, exit, ◌>>=◌, ◌>>◌, when, set_repl, get_repl, Replication}

module _ {W : Type 0} ⦃sys : Replication W⦄ where
  unfoldable pub main : Program W (Unit {0})
  main = do
    ret ← get_repl
    when (is_neg ret) (exit 1)
    when (is_nonzero ret) (exit 1)
    ret ← set_repl 1
    when (is_neg ret) (exit 1)
    ret ← get_repl
    when (is_neg ret) (exit 1)
    when (not (is_nonzero ret)) (exit 1)
    ret ← set_repl 0
    when (is_neg ret) (exit 1)
    ret ← get_repl
    when (is_neg ret) (exit 1)
    when (is_nonzero ret) (exit 1)
    exit 0

-- ===== src/Inherit.antt =====
-- test2.c: a child of fork() has replication off, and leaves its parent's alone.
pub mod Verdict
use mitosis_tests.Base.{not, is_neg, is_nonzero, is_positive}
use mitosis_tests.Machine.{
  Program, exit, ◌>>=◌, ◌>>◌, when, set_repl, get_repl, disable, Replication, is_failure, fork,
  waitpid, Tasks,
}

module _ {W : Type 0} ⦃sys : Replication W⦄ where
  -- the branch `pid == 0`
  unfoldable pub child : Program W (Unit {0})
  child = do
    ret ← get_repl
    when (is_nonzero ret) (exit 1)
    ret ← set_repl 1
    when (is_neg ret) (exit 1)
    ret ← get_repl
    when (not (is_positive ret)) (exit 1)
    exit 0

  module _ ⦃tasks : Tasks W⦄ where
    unfoldable pub main : Program W (Unit {0})
    main = do
      ret ← set_repl 1
      when (is_neg ret) (exit 1)
      ret ← get_repl
      when (not (is_positive ret)) (exit 1)
      started ← fork child
      when (is_neg started.pid) (exit 1)
      wstatus ← waitpid started
      when (is_failure wstatus) (exit 1)
      ret ← get_repl
      when (not (is_positive ret)) (exit 1)
      disable
      exit 0

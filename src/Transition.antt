-- ===== src/Transition.antt =====
-- test6.c: a child of fork() that executes the test again, with the argument --child.
pub mod Verdict
use mitosis_tests.Base.{not, List, [], ◌∷◌, ℕ, is_neg, is_nonzero, is_positive}
use mitosis_tests.Machine.{
  Program, exit, quietly, ◌>>=◌, ◌>>◌, when, require, set_repl, get_repl, disable, Replication,
  malloc, free, effect, Memory, is_failure, fork, waitpid, Tasks, Execs,
}
use mitosis_tests.Loops.{copy_text, same_text}

-- "TestData", with the byte that ends a string
abbrev pub test_data : List ℕ
test_data = b'T' ∷ b'e' ∷ b's' ∷ b't' ∷ b'D' ∷ b'a' ∷ b't' ∷ b'a' ∷ 0 ∷ []

module _ {W : Type 0} ⦃sys : Replication W⦄ where
  -- main with the argument --child
  unfoldable pub image : Program W (Unit {0})
  image = do
    ret ← get_repl
    when (is_nonzero ret) (exit 1)
    ret ← set_repl 1
    when (is_neg ret) (exit 1)
    ret ← get_repl
    when (not (is_positive ret)) (exit 1)
    exit 0

  -- the branch `pid == 0`
  unfoldable pub child : ⦃execs : Execs W⦄ → Program W (Unit {0})
  child ⦃execs⦄ = do replaced ← quietly execs.execvp; when replaced image; exit 1

  module _ ⦃mem : Memory W⦄ where
    -- from the last look at the parent's replication on
    unfoldable pub finish : ℕ → Program W (Unit {0})
    finish a = do
      ret ← get_repl
      when (not (is_positive ret)) (do free a; exit 1)
      same ← quietly (same_text a test_data)
      when (not same) (do free a; exit 1)
      free a
      disable
      exit 0

    module _ ⦃tasks : Tasks W⦄ ⦃execs : Execs W⦄ where
      -- from the fork on
      unfoldable pub transit : ℕ → Program W (Unit {0})
      transit a = do
        started ← fork child
        when (is_neg started.pid) (do free a; exit 1)
        wstatus ← waitpid started
        when (is_failure wstatus) (do free a; exit 1)
        finish a

      -- main without an argument
      unfoldable pub main : Program W (Unit {0})
      main = do
        ret ← set_repl 1
        when (is_neg ret) (exit 1)
        ret ← get_repl
        when (not (is_positive ret)) (exit 1)
        found ← malloc 4096
        a ← require found (exit 1)
        effect (copy_text a test_data)
        transit a

-- ===== src/CloneFlags.antt =====
-- test26.c: clone() with and without CLONE_VM.
pub mod Verdict
pub mod Hygiene
use mitosis_tests.Base.{
  ℕ, ◌*◌, Bool, true, false, not, ◌&&◌, ltb, ◌!=◌, is_neg, is_nonzero, is_positive,
}
use mitosis_tests.Machine.{
  Program, exit, quietly, ◌>>=◌, ◌>>◌, when, require, choose, set_repl, get_repl, disable,
  Replication, malloc, free, effect, Memory, clone, waitpid, Status, Tasks, exited, killed, Nodes,
}

abbrev clone_stack_size : ℕ
clone_stack_size = 1024 * 1024

-- `WIFEXITED(wstatus) && WEXITSTATUS(wstatus) != 0`
abbrev pub exited_badly : Status → Bool
exited_badly (exited n) = n != 0
exited_badly killed = false

module _ {W : Type 0} ⦃sys : Replication W⦄ ⦃mem : Memory W⦄ where
  unfoldable pub child_func : Program W (Unit {0})
  child_func = do
    repl_status ← get_repl
    when (is_nonzero repl_status) (exit 1)
    found ← malloc 4096
    test_mem ← require found (exit 1)
    effect (mem.store32 test_mem 42)
    value ← quietly (mem.load32 test_mem)
    when (value != 42) (do free test_mem; exit 1)
    free test_mem
    exit 0

  module _ ⦃tasks : Tasks W⦄ where
    -- "Test 1": with CLONE_VM; a result of 0 matches no branch
    unfoldable pub clone_vm : ℕ → Program W (Unit {0})
    clone_vm stack = do
      started ← clone true child_func
      choose (is_positive started.pid)
          (do
            repl_status ← get_repl
            when (is_nonzero repl_status) (do free stack; exit 1)
            waitpid started
            ret ← set_repl 1
            when (is_neg ret) (do free stack; exit 1))
          (do
            einval ← quietly (λ w. (tasks.is_einval w, w))
            when (is_neg started.pid && not einval) (do free stack; exit 1))

    -- "Test 2": without it
    unfoldable pub clone_plain : ℕ → Program W (Unit {0})
    clone_plain stack = do
      started ← clone false child_func
      when (is_neg started.pid) (do free stack; exit 1)
      when (not (is_nonzero started.pid)) child_func
      repl_status ← get_repl
      when (not (is_nonzero repl_status)) (do free stack; exit 1)
      wstatus ← waitpid started
      when (exited_badly wstatus) (do free stack; exit 1)
      disable
      free stack
      exit 0

    unfoldable pub clones : ℕ → Program W (Unit {0})
    clones stack = do clone_vm stack; clone_plain stack

    module _ ⦃nodes : Nodes W⦄ where
      unfoldable pub main : Program W (Unit {0})
      main = do
        available ← quietly (λ w. (nodes.numa_available w, w))
        when (is_neg available) (exit 0)
        num_nodes ← quietly (λ w. (nodes.numa_num_configured_nodes w, w))
        when (ltb num_nodes 2) (exit 0)
        ret ← set_repl 1
        when (is_neg ret) (exit 1)
        repl_status ← get_repl
        when (not (is_nonzero repl_status)) (exit 1)
        found ← malloc clone_stack_size
        stack ← require found (exit 1)
        clones stack

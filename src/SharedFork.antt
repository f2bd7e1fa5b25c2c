-- ===== src/SharedFork.antt =====
-- test20.c: vfork(), whose child uses the memory of its parent.
pub mod Verdict
use mitosis_tests.Base.{
  ℕ, Bool, true, false, not, ◌&&◌, ◌||◌, none, some, ◌==◌, ◌!=◌, is_neg, is_nonzero,
}
use mitosis_tests.Machine.{
  Program, Process, ok, pure, exit, quietly, ◌>>=◌, ◌>>◌, when, choose, require, set_repl, get_repl,
  disable, Replication, malloc, free, effect, Memory, Status, exited, killed, is_failure, Child,
  waitpid, start, status_of, Tasks, Vforks,
}

abbrev pub test_size : ℕ
test_size = 4096

abbrev pub heap_word : ℕ
heap_word = 0xDEADBEEF

abbrev pub parent_word : ℕ
parent_word = 0x1234

-- `!WIFEXITED(status) || WEXITSTATUS(status) != 0`, where 127 is let pass
abbrev pub is_exec_failure : Status → Bool
is_exec_failure (exited n) = (n != 0) && (n != 127)
is_exec_failure killed = true

module _ {W : Type 0} where
  module _ ⦃vforks : Vforks W⦄ where
    -- `pid = vfork();` where `pid == 0` runs `child`
    abbrev pub vfork : Program W (Unit {0}) → Program W (Child W)
    vfork child s =
        let f = vforks.vfork s.env in
        let c = child (start f.child) in
        (
          ok (record { pid = f.pid; exit_status = status_of c.0; final = c.1 }),
          record s { env = f.resume c.1.env },
        )

    -- the second child; the program that it executes ends with a status of its own
    unfoldable pub exec_child : Program W (Unit {0})
    exec_child = do done ← quietly vforks.execl; code ← require done (exit 127); exit code

    -- "Try another vfork that does exec": whether the test can still pass
    unfoldable pub second_vfork : ⦃tasks : Tasks W⦄ → Program W Bool
    second_vfork = do
      started ← vfork exec_child
      choose (is_neg started.pid) (pure false)
          (do status ← waitpid started; pure (not (is_exec_failure status)))

  module _ ⦃mem : Memory W⦄ (parent_var child_touched : ℕ) where
    -- the branch `pid == 0` of the first vfork()
    unfoldable pub child : ℕ → Program W (Unit {0})
    child heap_data = do
      x ← quietly (mem.load32 parent_var)
      when (not (x == parent_word)) (exit 1)
      x ← quietly (mem.load32 heap_data)
      when (not (x == heap_word)) (exit 2)
      effect (mem.store32 child_touched 1)
      exit 0

    module _ ⦃sys : Replication W⦄ ⦃tasks : Tasks W⦄ ⦃vforks : Vforks W⦄ where
      -- from the checks of the parent on, given the status of the first child
      unfoldable pub finish : ℕ → Status → Program W (Unit {0})
      finish heap_data status = do
        touched ← quietly (mem.load32 child_touched)
        var ← quietly (mem.load32 parent_var)
        heap ← quietly (mem.load32 heap_data)
        good ← second_vfork
        ret ← set_repl 0
        quietly (mem.load32 parent_var)
        quietly (mem.load32 heap_data)
        free heap_data
        when
            (not (is_failure status)
              && (touched == 1)
              && (var == parent_word)
              && (heap == heap_word)
              && good
              && not (is_nonzero ret))
            (exit 0)
        exit 1

      unfoldable pub main : Program W (Unit {0})
      main = do
        found ← malloc test_size
        heap_data ← require found (exit 1)
        effect (mem.memset heap_data 0xAA test_size)
        effect (mem.store32 heap_data heap_word)
        ret ← set_repl 1
        when (is_nonzero ret) (do free heap_data; exit 1)
        get_repl
        started ← vfork (child heap_data)
        when (is_neg started.pid) (do disable; free heap_data; exit 1)
        status ← waitpid started
        finish heap_data status

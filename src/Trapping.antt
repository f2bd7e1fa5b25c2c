-- ===== src/Trapping.antt =====
-- test32.c: signals that answer accesses to memory, while replication is on.
pub mod Hygiene
pub mod Verdict
use mitosis_tests.Base.{ℕ, ◌+◌, not, Option, none, some, ltb, ◌==◌, ◌!=◌, is_neg, is_nonzero}
use mitosis_tests.Machine.{
  Program, pure, exit, quietly, ◌>>=◌, ◌>>◌, when, require, set_repl, get_repl, disable,
  Replication, mmap, munmap, effect, Memory, no_access, read, read_write, private_anonymous, Nodes,
  Fault, segv, bus, fault, Signals, sigaction, restore, try_store, try_load,
}

-- the variables of the file
pub record Globals : Type 0 where
  pub signal_count : ℕ
  pub in_handler : ℕ

-- the value that siglongjmp() gives to sigsetjmp(), with what the handler of the signal leaves
unfoldable pub handler : Fault → Globals → ℕ × Globals
handler segv g = (1, record { signal_count = g.signal_count + 1; in_handler = 1 })
handler bus g = (2, record { signal_count = g.signal_count + 1; in_handler = 1 })

-- `signal_count = 0; if (sigsetjmp(jmpbuf, 1) == 0) <access>`: the value of sigsetjmp() in the end
unfoldable pub jump : Option Fault → Globals → ℕ × Globals
jump none g = (0, record g { signal_count = 0 })
jump (some f) g = handler f (record g { signal_count = 0 })

abbrev pub clear_handler : Globals → Globals
clear_handler g = record g { in_handler = 0 }

module _ {W : Type 0} ⦃signals : Signals W⦄ where
  abbrev pub restore_all : Program W (Unit {0})
  restore_all = do restore (fault segv); restore (fault bus)

  -- "Setup signal handlers"
  unfoldable pub install : Program W (Unit {0})
  install = do
    ret ← sigaction (fault segv)
    when (is_neg ret) (exit 1)
    ret ← sigaction (fault bus)
    when (is_neg ret) (do restore (fault segv); exit 1)

  module _ ⦃sys : Replication W⦄ where
    abbrev give_up : {A : Type 0} → Program W A
    give_up = do disable; restore_all; exit 1

    -- "Test 1: Access to unmapped memory"
    unfoldable pub unmapped : Globals → Program W Globals
    unfolding jump
    unmapped g = do
      found ← try_store 0x1000000000 42
      let (value, g) = jump found g
      when (value == 0) give_up
      when (g.signal_count != 1) give_up
      pure (clear_handler g)

    module _ ⦃mem : Memory W⦄ where
      abbrev fail : ℕ → Program W (Unit {0})
      fail test_mem = do munmap test_mem 4096; give_up

      -- "Test 2: mprotect with PROT_NONE, then access"
      unfoldable pub out_of_reach : Globals → Program W Globals
      unfolding jump
      out_of_reach g = do
        found ← mmap private_anonymous 4096 read_write
        test_mem ← require found give_up
        effect (mem.memset test_mem 0xAA 4096)
        ret ← quietly (mem.mprotect test_mem 4096 no_access)
        when (is_neg ret) (fail test_mem)
        found ← try_load test_mem
        let (value, g) = jump found g
        when (value == 0) (fail test_mem)
        when (g.signal_count != 1) (fail test_mem)
        let g = clear_handler g
        ret ← quietly (mem.mprotect test_mem 4096 read_write)
        when (is_neg ret) (fail test_mem)
        first ← quietly (mem.load test_mem)
        when (not (first == 0xAA)) (fail test_mem)
        last ← quietly (mem.load (test_mem + 4095))
        when (not (last == 0xAA)) (fail test_mem)
        munmap test_mem 4096
        pure g

      -- "Test 3: Write to read-only memory"
      unfoldable pub read_only : Globals → Program W Globals
      unfolding jump
      read_only g = do
        found ← mmap private_anonymous 4096 read_write
        test_mem ← require found give_up
        effect (mem.memset test_mem 0xBB 4096)
        ret ← quietly (mem.mprotect test_mem 4096 read)
        when (is_neg ret) (fail test_mem)
        read_val ← quietly (mem.load test_mem)
        when (not (read_val == 0xBB)) (fail test_mem)
        found ← try_store test_mem 0xCC
        let (value, g) = jump found g
        when (value == 0) (fail test_mem)
        when (g.signal_count != 1) (fail test_mem)
        munmap test_mem 4096
        pure (clear_handler g)

      -- from the enabling of replication on
      unfoldable pub run : Program W (Unit {0})
      run = do
        ret ← set_repl 1
        when (is_neg ret) (do restore_all; exit 1)
        status ← get_repl
        when (not (is_nonzero status)) (do restore_all; exit 1)
        g ← unmapped (record { signal_count = 0; in_handler = 0 })
        g ← out_of_reach g
        read_only g
        status ← get_repl
        when (not (is_nonzero status)) (do restore_all; exit 1)
        disable
        restore_all
        exit 0

      unfoldable pub main : ⦃nodes : Nodes W⦄ → Program W (Unit {0})
      main ⦃nodes⦄ = do
        available ← quietly (λ w. (nodes.numa_available w, w))
        when (is_neg available) (exit 0)
        num_nodes ← quietly (λ w. (nodes.numa_num_configured_nodes w, w))
        when (ltb num_nodes 2) (exit 0)
        install
        run

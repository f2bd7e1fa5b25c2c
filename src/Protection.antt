-- ===== src/Protection.antt =====
-- test9.c: mprotect() on three pages.
pub mod Verdict
use mitosis_tests.Base.{
  ℕ, ◌+◌, ◌*◌, Bool, true, false, not, ◌&&◌, Option, none, some, List, [], ◌∷◌, is_neg, is_positive,
}
use mitosis_tests.Machine.{
  Program, pure, exit, quietly, ◌>>=◌, ◌>>◌, when, require, set_repl, get_repl, disable,
  Replication, mmap, munmap, effect, Memory, no_access, read, read_write, read_exec,
  private_anonymous, Fault, segv, bus, fault, Signals, sigaction, try_store, try_load,
}
use mitosis_tests.Loops.{copy_text, same_text}

abbrev pub size : ℕ
size = 4096 * 3

-- "ReadWrite" and "WritableAgain", with the bytes that end them
abbrev pub read_write_text : List ℕ
read_write_text = b'R' ∷ b'e' ∷ b'a' ∷ b'd' ∷ b'W' ∷ b'r' ∷ b'i' ∷ b't' ∷ b'e' ∷ 0 ∷ []

abbrev pub writable_again : List ℕ
writable_again =
    b'W' ∷ b'r' ∷ b'i' ∷ b't' ∷ b'a' ∷ b'b' ∷ b'l' ∷ b'e' ∷ b'A' ∷ b'g' ∷ b'a' ∷ b'i' ∷ b'n' ∷ 0
    ∷ []

-- sigsetjmp() with `segv_caught` cleared before it, an access, and the handler where SIGSEGV answers
-- it: the value of sigsetjmp() and `segv_caught` in the end. A signal that has no handler ends the
-- process, with the status that a shell shows for it. `installed` tells whether SIGSEGV has one.
unfoldable pub jump : {W : Type 0} → Bool → Option Fault → Program W (Bool × Bool)
jump installed none = pure (false, false)
jump true (some segv) = pure (true, true)
jump false (some segv) = exit (128 + 11)
jump installed (some bus) = exit (128 + 7)

module _ {W : Type 0} ⦃mem : Memory W⦄ ⦃sys : Replication W⦄ where
  abbrev fail : ℕ → Program W (Unit {0})
  fail a = do munmap a size; disable; exit 1

  -- "Test 1" to "Test 3"
  unfoldable pub read_only : ℕ → Program W (Unit {0})
  read_only a = do
    effect (copy_text a read_write_text)
    same ← quietly (same_text a read_write_text)
    when (not same) (fail a)
    ret ← quietly (mem.mprotect a 4096 read)
    when (is_neg ret) (fail a)
    same ← quietly (same_text a read_write_text)
    when (not same) (fail a)

  module _ ⦃signals : Signals W⦄ where
    -- "Test 4"; the result of sigaction() is not looked at by the code
    unfoldable pub write_trap : ℕ → Program W Bool
    unfolding jump
    write_trap a = do
      ret ← sigaction (fault segv)
      found ← try_store a b'X'
      (jumped, segv_caught) ← jump (not (is_neg ret)) found
      when (not jumped) (fail a)
      when (not segv_caught) (fail a)
      pure (not (is_neg ret))

    -- "Test 5" and "Test 6"
    unfoldable pub read_trap : Bool → ℕ → Program W (Unit {0})
    unfolding jump
    read_trap installed a = do
      ret ← quietly (mem.mprotect a 4096 read_write)
      when (is_neg ret) (fail a)
      effect (copy_text a writable_again)
      same ← quietly (same_text a writable_again)
      when (not same) (fail a)
      ret ← quietly (mem.mprotect (a + 4096) 4096 no_access)
      when (is_neg ret) (fail a)
      found ← try_load (a + 4096)
      (jumped, segv_caught) ← jump installed found
      when (not jumped) (fail a)
      when (not segv_caught) (fail a)

    -- "Test 7", whose result is only printed, and the end
    unfoldable pub finish : ℕ → Program W (Unit {0})
    finish a = do
      quietly (mem.mprotect (a + 4096 * 2) 4096 read_exec)
      ret ← get_repl
      when (not (is_positive ret)) (do munmap a size; exit 1)
      munmap a size
      disable
      exit 0

    unfoldable pub main : Program W (Unit {0})
    main = do
      ret ← set_repl 1
      when (is_neg ret) (exit 1)
      found ← mmap private_anonymous size read_write
      a ← require found (do disable; exit 1)
      read_only a
      installed ← write_trap a
      read_trap installed a
      finish a

-- ===== src/Protection/Verdict.antt =====
-- What the verdict of test9.c means for the protection of pages.
use mitosis_tests.Base.{
  ℕ, zero, suc, ◌+◌, ◌≡◌, refl, ◌∙◌, Bool, true, false, not, ◌&&◌, none, some, List, [], ◌∷◌, arith,
  is_neg, is_positive,
}
use mitosis_tests.Machine.{
  Event, set, get, refused, access, segv, bus, Process, status, calls, start, ok, ended, Outcome,
  Replication, Memory, Signals, Remembers, Guards, no_access, read, read_write,
}
use mitosis_tests.Loops.{copy_text, same_text}
use mitosis_tests.Loops.Texts.{Holds-kept, same_text-byte, same_text-true, copy_text-Holds}
use mitosis_tests.Protection.{
  read_write_text, writable_again, jump, read_only, write_trap, read_trap, finish, main,
}

-- How many accesses SIGSEGV has answered, and how many went through.
abbrev pub trapped : List Event → ℕ
trapped [] = 0
trapped (access (some segv) ∷ t) = suc (trapped t)
trapped (_ ∷ t) = trapped t

abbrev pub escaped : List Event → ℕ
escaped [] = 0
escaped (access none ∷ t) = suc (escaped t)
escaped (_ ∷ t) = escaped t

-- No SET answered an error, every GET a positive mask, every request was granted, and SIGSEGV has
-- answered every access.
abbrev pub is_guarded : List Event → Bool
is_guarded [] = true
is_guarded (set n a ∷ t) = not (is_neg a) && is_guarded t
is_guarded (get a ∷ t) = is_positive a && is_guarded t
is_guarded (refused ∷ t) = false
is_guarded (access none ∷ t) = false
is_guarded (access (some bus) ∷ t) = false
is_guarded (_ ∷ t) = is_guarded t

-- A part that ends the process only where something was not as it has to be.
abbrev Blames : {W A : Type 0} → Outcome A × Process W → Type 0
Blames (ok a, s) = Unit
Blames (ended n, s) = is_guarded s.trace ≡ false

-- A part that goes on only after so many more accesses were answered by SIGSEGV.
abbrev Traps : {W A : Type 0} → ℕ → Process W → Outcome A × Process W → Type 0
Traps n s (ok a, s') =
    (trapped s'.trace ≡ trapped s.trace + n) × (escaped s'.trace ≡ escaped s.trace)
Traps n s (ended zero, s') = ⊥
Traps n s (ended (suc k), s') = Unit

module _ {W : Type 0} ⦃mem : Memory W⦄ ⦃sys : Replication W⦄ where
  read_only-Traps : (a : ℕ) (s : Process W) → Traps 0 s (read_only a s)
  unfolding read_only
  read_only-Traps a s = ground arith

  module _ ⦃signals : Signals W⦄ where
    write_trap-Traps : (a : ℕ) (s : Process W) → Traps 1 s (write_trap a s)
    unfolding write_trap jump
    write_trap-Traps a s = ground arith

    read_trap-Traps :
        (installed : Bool) (a : ℕ) (s : Process W) → Traps 1 s (read_trap installed a s)
    unfolding read_trap jump
    read_trap-Traps installed a s = ground arith

    -- test9.c passes only if SIGSEGV has answered the write to the page that may only be read and the
    -- read of the page without access, and neither went through.
    protection-passes_only :
        (w : W)
        → status main (start w) ≡ 0
        → (trapped (calls main (start w)) ≡ 2) × (escaped (calls main (start w)) ≡ 0)
    unfolding main finish
    protection-passes_only w h = grind (arith, read_only-Traps, write_trap-Traps, read_trap-Traps)

    module _ {byte word : W → ℕ → ℕ} (r : Remembers mem byte word)
        (guards : Guards mem signals byte) where
      read_only-Blames : (a : ℕ) (s : Process W) → Blames (read_only a s)
      unfolding read_only
      read_only-Blames a s =
          let text = read_write_text in
          let w1 = copy_text a text s.env in
          let w2 = (same_text a text w1).1 in
          let w3 = (mem.mprotect a 4096 read w2).1 in
          let held = copy_text-Holds r a text s.env refl in
          let kept =
            Holds-kept r a text w1 w3
              (λ b. guards.guard_byte a 4096 read b w2 ∙ same_text-byte r a b text w1) held in
          ground (
            arith,
            same_text-true r a text w1 held,
            guards.guard_answer a 4096 read w2,
            same_text-true r a text w3 kept,
          )

      write_trap-Blames : (a : ℕ) (s : Process W) → Blames (write_trap a s)
      unfolding write_trap jump
      write_trap-Blames a s = ground arith

      -- The handler is there, unless sigaction() was refused.
      write_trap-true :
          (a : ℕ) (s : Process W)
          → (write_trap a s).0 ≡ ok false
          → is_guarded (write_trap a s).1.trace ≡ false
      unfolding write_trap jump
      write_trap-true a s = ground arith

      read_trap-Blames :
          (installed : Bool) (a : ℕ) (s : Process W)
          → (installed ≡ false → is_guarded s.trace ≡ false)
          → Blames (read_trap installed a s)
      unfolding read_trap jump
      read_trap-Blames installed a s there =
          let text = writable_again in
          let w1 = (mem.mprotect a 4096 read_write s.env).1 in
          let w2 = copy_text a text w1 in
          let w3 = (same_text a text w2).1 in
          ground (
            arith,
            guards.guard_answer a 4096 read_write s.env,
            same_text-true r a text w2 (copy_text-Holds r a text w1 refl),
            guards.guard_answer (a + 4096) 4096 no_access w3,
          )

      -- On memory that keeps what is written, where mprotect() succeeds and changes no byte, test9.c passes
      -- in every run in which no SET answered an error, every GET a positive mask, mmap() and sigaction()
      -- were granted, and SIGSEGV has answered both forbidden accesses.
      pub protection-passes :
          (w : W) → is_guarded (calls main (start w)) ≡ true → status main (start w) ≡ 0
      unfolding main finish
      protection-passes w guarded =
          grind (arith, read_only-Blames, write_trap-Blames, write_trap-true, read_trap-Blames)

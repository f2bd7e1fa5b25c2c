-- ===== src/Trapping/Verdict.antt =====
-- What the verdict of test32.c means for accesses that a signal has to answer.
use mitosis_tests.Base.{
  ℕ, suc, ◌+◌, ◌<◌, ◌≤◌, ◌≡◌, ◌∙◌, Bool, true, false, not, ◌&&◌, none, some, inl, inr, Option-cases,
  List, [], ◌∷◌, arith, is_neg, is_nonzero,
}
use mitosis_tests.Machine.{
  Event, set, get, refused, access, Process, status, calls, start, ok, ended, Outcome, Replication,
  Memory, Nodes, Signals, Remembers, Fills, Guards, no_access, read, read_write, private_anonymous,
}
use mitosis_tests.Trapping.{
  Globals, handler, jump, install, unmapped, out_of_reach, read_only, run, main,
}

-- How many accesses a signal has answered, and how many none.
abbrev pub trapped : List Event → ℕ
trapped [] = 0
trapped (access (some f) ∷ t) = suc (trapped t)
trapped (_ ∷ t) = trapped t

abbrev pub escaped : List Event → ℕ
escaped [] = 0
escaped (access none ∷ t) = suc (escaped t)
escaped (_ ∷ t) = escaped t

-- No SET answered an error, no GET the empty mask, every request was granted, and a signal has
-- answered every access.
abbrev pub is_guarded : List Event → Bool
is_guarded [] = true
is_guarded (set n a ∷ t) = not (is_neg a) && is_guarded t
is_guarded (get a ∷ t) = is_nonzero a && is_guarded t
is_guarded (refused ∷ t) = false
is_guarded (access none ∷ t) = false
is_guarded (_ ∷ t) = is_guarded t

-- A part that goes on only after one more access was answered by a signal, and fails otherwise.
abbrev Traps : {W A : Type 0} → Process W → Outcome A × Process W → Type 0
Traps s (ok a, s') =
    (trapped s'.trace ≡ suc (trapped s.trace)) × (escaped s'.trace ≡ escaped s.trace)
Traps s (ended n, s') = n ≡ 1

-- A part that fails only where something was not as it has to be.
abbrev Blames : {W A : Type 0} → Outcome A × Process W → Type 0
Blames (ok a, s) = Unit
Blames (ended n, s) = is_guarded s.trace ≡ false

module _ {W : Type 0} ⦃signals : Signals W⦄ ⦃sys : Replication W⦄ where
  unmapped-Traps : (g : Globals) (s : Process W) → Traps s (unmapped g s)
  unfolding unmapped jump handler
  unmapped-Traps g s = ground arith

  unmapped-Blames : (g : Globals) (s : Process W) → Blames (unmapped g s)
  unfolding unmapped jump handler
  unmapped-Blames g s = ground arith

  module _ ⦃mem : Memory W⦄ where
    out_of_reach-Traps : (g : Globals) (s : Process W) → Traps s (out_of_reach g s)
    unfolding out_of_reach jump handler
    out_of_reach-Traps g s = ground arith

    read_only-Traps : (g : Globals) (s : Process W) → Traps s (read_only g s)
    unfolding read_only jump handler
    read_only-Traps g s = ground arith

    run-Traps :
        (s : Process W)
        → status run s ≡ 0
        → (trapped (run s).1.trace ≡ trapped s.trace + 3)
          × (escaped (run s).1.trace ≡ escaped s.trace)
    unfolding run
    run-Traps s h = grind (arith, unmapped-Traps, out_of_reach-Traps, read_only-Traps)

    -- Where libnuma is available and shows two nodes at least, test32.c passes only if a signal has
    -- answered each of its three forbidden accesses, to unmapped memory, to memory without access and to
    -- memory that may only be read, and no such access went through.
    pub trapping-passes_only :
        ⦃nodes : Nodes W⦄ (w : W)
        → is_neg (nodes.numa_available w) ≡ false
        → 2 ≤ nodes.numa_num_configured_nodes w
        → status main (start w) ≡ 0
        → (trapped (calls main (start w)) ≡ 3) × (escaped (calls main (start w)) ≡ 0)
    unfolding main install
    trapping-passes_only w available many h = grind (arith, run-Traps)

    module _ {byte word : W → ℕ → ℕ} (r : Remembers mem byte word) (fills : Fills mem byte)
        (guards : Guards mem signals byte) where
      out_of_reach-Blames : (g : Globals) (s : Process W) → Blames (out_of_reach g s)
      unfolding out_of_reach jump handler
      out_of_reach-Blames g s =
          let w1 = (mem.mmap private_anonymous 4096 read_write s.env).1 in
          elim (Option-cases (mem.mmap private_anonymous 4096 read_write s.env).0) [
            | inl e ↦ ground (arith, e)
            | inr (a, e) ↦
                let w2 = mem.memset a 0xAA 4096 w1 in
                let w3 = (mem.mprotect a 4096 no_access w2).1 in
                let w4 = (signals.try_load a w3).1 in
                elim (Option-cases (signals.try_load a w3).0) [
                  | inl e' ↦ ground (arith, e, e', guards.guard_answer a 4096 no_access w2)
                  | inr (f, e') ↦
                      let w5 = (mem.mprotect a 4096 read_write w4).1 in
                      let w6 = (mem.load a w5).1 in
                      let kept = λ (b : ℕ) (le : a ≤ b) (lt : b < a + 4096).
                        guards.guard_byte a 4096 read_write b w4
                        ∙ guards.load_fault a f b w3 e'
                        ∙ guards.guard_byte a 4096 no_access b w2
                        ∙ fills.filled a 0xAA 4096 b w1 (omega arith) le lt in
                      ground (
                        arith,
                        e,
                        e',
                        guards.guard_answer a 4096 no_access w2,
                        guards.guard_answer a 4096 read_write w4,
                        r.load_value a w5,
                        r.load_value (a + 4095) w6,
                        r.load_byte a (a + 4095) w5,
                        kept a (omega arith) (omega arith),
                        kept (a + 4095) (omega arith) (omega arith),
                      )
                ]
          ]

      read_only-Blames : (g : Globals) (s : Process W) → Blames (read_only g s)
      unfolding read_only jump handler
      read_only-Blames g s =
          let w1 = (mem.mmap private_anonymous 4096 read_write s.env).1 in
          elim (Option-cases (mem.mmap private_anonymous 4096 read_write s.env).0) [
            | inl e ↦ ground (arith, e)
            | inr (a, e) ↦
                let w2 = mem.memset a 0xBB 4096 w1 in
                let w3 = (mem.mprotect a 4096 read w2).1 in
                ground (
                  arith,
                  e,
                  guards.guard_answer a 4096 read w2,
                  r.load_value a w3,
                  guards.guard_byte a 4096 read a w2,
                  fills.filled a 0xBB 4096 a w1 (omega arith) (omega arith) (omega arith),
                )
          ]

      -- On memory that keeps what is written, through mprotect() and through an access that a signal
      -- answers, test32.c passes in every run in which no SET answered an error, no GET the empty mask,
      -- every sigaction() and mmap() was granted, and a signal has answered every forbidden access.
      trapping-passes :
          ⦃nodes : Nodes W⦄ (w : W)
          → is_guarded (calls main (start w)) ≡ true
          → status main (start w) ≡ 0
      unfolding main install run
      trapping-passes w guarded =
          grind (arith, unmapped-Blames, out_of_reach-Blames, read_only-Blames)

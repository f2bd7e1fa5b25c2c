-- ===== src/Resizing/Losing.antt =====
-- What the verdict of test15.c is on a kernel whose mremap() loses the first page.
use mitosis_tests.Base.{ℕ, ◌+◌, ◌<◌, ◌≡◌, some, inl, inr, Option-cases, List, [], ◌∷◌, arith}
use mitosis_tests.Machine.{
  Process, status, start, ok, ended, Outcome, Replication, Memory, Remapping, Remembers, may_move,
  stay,
}
use mitosis_tests.Loops.{write_bytes}
use mitosis_tests.Resizing.{
  page_size, sizes, test_offsets, large, small, probe_offsets, resize, oscillate, expand, move,
  move_fixed, shrink_expand, cycles, shrink_expand_cycles, main,
}

-- A part that leaves the program with status 1, if at all.
abbrev Fails : {W A : Type 0} → Outcome A × Process W → Type 0
Fails (ok a, s) = Unit
Fails (ended n, s) = n ≡ 1

-- A part that leaves the program with status 1.
abbrev Failed : {W A : Type 0} → Outcome A × Process W → Type 0
Failed (ok a, s) = ⊥
Failed (ended n, s) = n ≡ 1

module _ {W : Type 0} ⦃mem : Memory W⦄ where
  probe_offsets-Fails :
      (a i : ℕ) (offsets : List ℕ) (s : Process W) → Fails (probe_offsets a i offsets s)
  unfolding probe_offsets
  probe_offsets-Fails a i [] s = tt
  probe_offsets-Fails a i (offset ∷ offsets) s =
      grind (arith, probe_offsets-Fails a (i + 1) offsets)

  module _ ⦃rem : Remapping W⦄ where
    resize-Fails : (a size i : ℕ) (rest : List ℕ) (s : Process W) → Fails (resize a size i rest s)
    unfolding resize
    resize-Fails a size i [] s = tt
    resize-Fails a size i (n ∷ rest) s =
        let go = λ (b : ℕ). resize-Fails b n (i + 1) rest in grind (arith, go)

    oscillate-Fails : (s : Process W) → Fails (oscillate s)
    unfolding oscillate
    oscillate-Fails s = grind (arith, λ (a : ℕ). resize-Fails a page_size 0 sizes)

    expand-Fails : (s : Process W) → Fails (expand s)
    unfolding expand
    expand-Fails s = grind (arith, λ (a : ℕ). probe_offsets-Fails a 0 test_offsets)

    move_fixed-Fails : (s : Process W) → Fails (move_fixed s)
    unfolding move_fixed move
    move_fixed-Fails s = ground arith

    shrink_expand-Fails : (a cycle : ℕ) (s : Process W) → Fails (shrink_expand a cycle s)
    unfolding shrink_expand
    shrink_expand-Fails a cycle s = ground arith

    module _ {byte word : W → ℕ → ℕ} (r : Remembers mem byte word)
        (lost : (a old new b : ℕ) (w : W)
          → (rem.mremap a old new may_move w).0 ≡ some b
          → byte (rem.mremap a old new may_move w).1 b ≡ 0) where
      -- From the second round on, the byte that a round looks for is not zero.
      shrink_expand-Failed :
          (a cycle : ℕ) (s : Process W) → 0 < cycle → Failed (shrink_expand a cycle s)
      unfolding shrink_expand
      shrink_expand-Failed a cycle s lt =
          let w1 = write_bytes (λ _. cycle) a 0 1024 s.env in
          let w2 = (rem.mremap a large small stay w1).1 in
          elim (Option-cases (rem.mremap a large small stay w1).0) [
            | inl e ↦ ground (arith, e)
            | inr (b, e) ↦
                let w3 = (rem.mremap b small large may_move w2).1 in
                elim (Option-cases (rem.mremap b small large may_move w2).0) [
                  | inl e' ↦ ground (arith, e, e')
                  | inr (c, e') ↦
                      ground (arith, e, e', r.load_value c w3, lost b small large c w2 e')
                ]
          ]

      cycles-Failed : (a : ℕ) (s : Process W) → Failed (cycles a 0 5 s)
      unfolding cycles
      cycles-Failed a s = grind (arith, shrink_expand-Fails, shrink_expand-Failed)

      shrink_expand_cycles-Failed : (s : Process W) → Failed (shrink_expand_cycles s)
      unfolding shrink_expand_cycles
      shrink_expand_cycles-Failed s = grind (arith, cycles-Failed)

      -- On memory that keeps what is written, test15.c fails on every kernel on which a mapping that
      -- mremap() may move, and has moved or resized, begins with a byte zero.
      pub resizing-rejects_lost : ⦃sys : Replication W⦄ (w : W) → status main (start w) ≡ 1
      unfolding main
      resizing-rejects_lost w =
          grind
            (arith, oscillate-Fails, expand-Fails, move_fixed-Fails, shrink_expand_cycles-Failed)

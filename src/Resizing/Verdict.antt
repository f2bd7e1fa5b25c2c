-- ===== src/Resizing/Verdict.antt =====
-- What the verdict of test15.c means for a kernel that moves mappings.
use mitosis_tests.Base.{
  ℕ, zero, suc, ◌+◌, ◌-◌, ◌*◌, ◌<◌, ◌≡◌, refl, ◌∙◌, Bool, not, ◌&&◌, true, false, inl, inr,
  Option-cases, List, [], ◌∷◌, arith, is_neg, is_nonzero,
}
use mitosis_tests.Machine.{
  Process, Event, get, set, refused, calls, status, start, ok, ended, Outcome, Replication, Memory,
  Remapping, Remembers, Fills, Moves, stay, may_move, move_to,
}
use mitosis_tests.Machine.Pool.{length}
use mitosis_tests.Loops.{write_bytes}
use mitosis_tests.Loops.Pages.{write_bytes-at}
use mitosis_tests.Resizing.{
  page_size, pmd_size, sizes, test_offsets, large, small, probe_offsets, probe_pages, resize,
  oscillate, expand, move, move_fixed, shrink_expand, cycles, shrink_expand_cycles, unaligned,
  finish, main,
}

-- No SET answered an error, no GET the empty mask, and no mapping was refused.
abbrev pub is_granted : List Event → Bool
is_granted [] = true
is_granted (set n a ∷ t) = not (is_neg a) && is_granted t
is_granted (get a ∷ t) = is_nonzero a && is_granted t
is_granted (refused ∷ t) = false
is_granted (_ ∷ t) = is_granted t

-- Every mapping has two bytes at least.
abbrev IsTall : List ℕ → Type 0
IsTall [] = Unit
IsTall (n ∷ rest) = (1 < n) × IsTall rest

-- A part that leaves the program only after a request was refused.
abbrev Blames : {W A : Type 0} → Outcome A × Process W → Type 0
Blames (ok a, s) = Unit
Blames (ended n, s) = is_granted s.trace ≡ false

module _ {W : Type 0} ⦃mem : Memory W⦄ {byte word : W → ℕ → ℕ} (r : Remembers mem byte word) where
  probe_pages-true : (v p i n : ℕ) (w : W) → v < 256 → (probe_pages v p i n w).0 ≡ true
  unfolding probe_pages
  probe_pages-true v p i zero w lt = refl
  probe_pages-true v p i (suc n) w lt =
      let w1 = mem.store (p + i * page_size) v w in
      ground (
        arith,
        r.load_value (p + i * page_size) w1,
        r.store_same (p + i * page_size) v w lt,
        probe_pages-true v p (i + 1) n (mem.load (p + i * page_size) w1).1 lt,
      )

  probe_offsets-Blames :
      (a i : ℕ) (offsets : List ℕ) (s : Process W)
      → i + length offsets < 100
      → Blames (probe_offsets a i offsets s)
  unfolding probe_offsets
  probe_offsets-Blames a i [] s lt = tt
  probe_offsets-Blames a i (offset ∷ offsets) s lt =
      let v = 0x42 + i in
      let w1 = mem.store (a + offset) v s.env in
      let w2 = (mem.load (a + offset) w1).1 in
      let rest = probe_offsets-Blames a (i + 1) offsets (record s { env = w2 }) (omega arith) in
      let skip = probe_offsets-Blames a (i + 1) offsets s (omega arith) in
      ground (
        arith,
        rest,
        skip,
        r.load_value (a + offset) w1,
        r.store_same (a + offset) v s.env (omega arith),
      )

  module _ ⦃rem : Remapping W⦄ where
    resize-Blames :
        (a size i : ℕ) (rest : List ℕ) (s : Process W)
        → i + length rest < 100
        → IsTall rest
        → Blames (resize a size i rest s)
    unfolding resize
    resize-Blames a size i [] s lt tall = tt
    resize-Blames a size i (n ∷ rest) s lt (big, tall) =
        let w1 = (rem.mremap a size n may_move s.env).1 in
        elim (Option-cases (rem.mremap a size n may_move s.env).0) [
          | inl e ↦ ground (arith, e)
          | inr (b, e) ↦
              let w2 = mem.store b i w1 in
              let end = b + n - 1 in
              let w3 = mem.store end i w2 in
              let w4 = (mem.load b w3).1 in
              let w5 = (mem.load end w4).1 in
              let go = λ (t : List Event).
                resize-Blames b n (i + 1) rest (record { env = w5; trace = t }) (omega arith)
                  tall in
              grind (
                arith,
                e,
                go,
                r.load_value b w3,
                r.store_other end i b w2 (omega arith),
                r.store_same b i w1 (omega arith),
                r.load_value end w4,
                r.load_byte b end w3,
                r.store_same end i w2 (omega arith),
              )
        ]

    oscillate-Blames : (s : Process W) → Blames (oscillate s)
    unfolding oscillate
    oscillate-Blames s =
        let go = λ (a : ℕ) (s' : Process W).
          resize-Blames a page_size 0 sizes s' (omega arith) (ground arith) in
        grind (arith, go)

    expand-Blames : (s : Process W) → Blames (expand s)
    unfolding expand
    expand-Blames s =
        let go =
          λ (a : ℕ) (s' : Process W). probe_offsets-Blames a 0 test_offsets s' (omega arith) in
        grind (arith, go)

    unaligned-Blames : (s : Process W) → Blames (unaligned s)
    unfolding unaligned
    unaligned-Blames s = ground arith

    module _ (fills : Fills mem byte) (moves : Moves rem byte) where
      move-Blames : (a c : ℕ) (s : Process W) → Blames (move a c s)
      unfolding move
      move-Blames a c s =
          let w1 = mem.memset a 0x33 pmd_size s.env in
          let w2 = (rem.mremap a pmd_size pmd_size (move_to c) w1).1 in
          elim (Option-cases (rem.mremap a pmd_size pmd_size (move_to c) w1).0) [
            | inl e ↦ ground (arith, e)
            | inr (b, e) ↦
                let w3 = (mem.load b w2).1 in
                let kept = λ (k : ℕ) (lt : k < pmd_size).
                  moves.moved_byte a pmd_size pmd_size (move_to c) b k w1 e lt lt
                  ∙ fills.filled a 0x33 pmd_size (a + k) s.env (omega arith) (omega arith)
                      (omega arith) in
                ground (
                  arith,
                  e,
                  moves.moved_to a pmd_size pmd_size c b w1 e,
                  r.load_value b w2,
                  kept 0 (omega arith),
                  r.load_value (b + pmd_size - 1) w3,
                  r.load_byte b (b + pmd_size - 1) w2,
                  kept (pmd_size - 1) (omega arith),
                )
          ]

      move_fixed-Blames : (s : Process W) → Blames (move_fixed s)
      unfolding move_fixed
      move_fixed-Blames s = grind (arith, move-Blames)

      shrink_expand-Blames :
          (a cycle : ℕ) (s : Process W) → cycle < 100 → Blames (shrink_expand a cycle s)
      unfolding shrink_expand
      shrink_expand-Blames a cycle s lt =
          let w1 = write_bytes (λ _. cycle) a 0 1024 s.env in
          let w2 = (rem.mremap a large small stay w1).1 in
          elim (Option-cases (rem.mremap a large small stay w1).0) [
            | inl e ↦ ground (arith, e)
            | inr (b, e) ↦
                let w3 = (rem.mremap b small large may_move w2).1 in
                elim (Option-cases (rem.mremap b small large may_move w2).0) [
                  | inl e' ↦ ground (arith, e, e')
                  | inr (c, e') ↦
                      let kept =
                        moves.moved_byte b small large may_move c 0 w2 e' (omega arith)
                          (omega arith)
                        ∙ moves.moved_byte a large small stay b 0 w1 e (omega arith) (omega arith)
                        ∙ write_bytes-at r (λ _. cycle) a 0 1024 0 s.env (omega arith) (omega arith)
                            (omega arith) in
                      let w4 = (mem.load c w3).1 in
                      ground (
                        arith,
                        e,
                        e',
                        kept,
                        r.load_value c w3,
                        probe_pages-true (cycle + 0x80) c 10 1014 w4 (omega arith),
                      )
                ]
          ]

      cycles-Blames :
          (a cycle n : ℕ) (s : Process W) → cycle + n < 100 → Blames (cycles a cycle n s)
      unfolding cycles
      cycles-Blames a cycle zero s lt = tt
      cycles-Blames a cycle (suc n) s lt =
          let here = shrink_expand-Blames a cycle s (omega arith) in
          let rest = λ (b : ℕ) (s' : Process W). cycles-Blames b (cycle + 1) n s' (omega arith) in
          grind (arith, here, rest)

      shrink_expand_cycles-Blames : (s : Process W) → Blames (shrink_expand_cycles s)
      unfolding shrink_expand_cycles
      shrink_expand_cycles-Blames s =
          let go = λ (b : ℕ) (s' : Process W). cycles-Blames b 0 5 s' (omega arith) in
          grind (arith, go)

      -- On memory that keeps what is written, where mremap() keeps the bytes that the old and the new
      -- mapping have in common and goes to the address that MREMAP_FIXED asks for, test15.c passes in
      -- every run in which no SET answered an error, no GET the empty mask, and no mmap() or mremap() was
      -- refused.
      pub resizing-passes :
          ⦃sys : Replication W⦄ (w : W)
          → is_granted (calls main (start w)) ≡ true
          → status main (start w) ≡ 0
      unfolding main finish
      resizing-passes w granted = grind (
        arith, oscillate-Blames, expand-Blames, move_fixed-Blames, shrink_expand_cycles-Blames,
        unaligned-Blames,
      )

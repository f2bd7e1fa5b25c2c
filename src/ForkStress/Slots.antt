-- ===== src/ForkStress/Slots.antt =====
-- Counting the entries of `child_pids` of test35.c.
use mitosis_tests.Base.{
  ℕ, zero, suc, ◌+◌, ◌≤◌, ◌<◌, ◌≡◌, refl, Bool, true, false, ◌&&◌, ◌==◌, inl, inr, Bool-cases,
  arith, none, some, is_positive, if◌then◌else◌,
}
use mitosis_tests.ForkStress.Rounds.{Slot, put}

module _ {W : Type 0} where
  -- how many of the first `n` entries are such
  unfoldable pub num : (Slot W → Bool) → ℕ → (ℕ → Slot W) → ℕ
  num good zero pids = 0
  num good (suc n) pids = (if good (pids n) then 1 else 0) + num good n pids

  -- a child that fork() answered
  abbrev pub is_own : Slot W → Bool
  is_own slot = elim slot.child [ none ↦ false | some c ↦ is_positive slot.pid ]

  -- such a child, which ends with status 0
  abbrev pub is_fine : Slot W → Bool
  is_fine slot = elim slot.child [ none ↦ false | some c ↦ is_positive slot.pid && (c.0 == 0) ]

  pub num-suc :
      (good : Slot W → Bool) (n : ℕ) (pids : ℕ → Slot W)
      → num good (n + 1) pids ≡ (if good (pids n) then 1 else 0) + num good n pids
  unfolding num
  num-suc good n pids = ground arith

  pub num-le : (good : Slot W → Bool) (n : ℕ) (pids : ℕ → Slot W) → num good n pids ≤ n
  unfolding num
  num-le good zero pids = omega arith
  num-le good (suc n) pids = ground (arith, num-le good n pids)

  pub num-put :
      (good : Slot W → Bool) (i n : ℕ) (slot : Slot W) (pids : ℕ → Slot W)
      → n ≤ i
      → num good n (put i slot pids) ≡ num good n pids
  unfolding num
  num-put good i zero slot pids le = refl
  num-put good i (suc n) slot pids le = ground (arith, num-put good i n slot pids (omega arith))

  pub num-full :
      (good : Slot W → Bool) (n k : ℕ) (pids : ℕ → Slot W)
      → num good n pids ≡ n
      → k < n
      → good (pids k) ≡ true
  unfolding num
  num-full good zero k pids e lt = absurd (omega arith)
  num-full good (suc n) k pids e lt = elim (Bool-cases (k == n)) [
    | inl same ↦ ground (arith, num-le good n pids)
    | inr other ↦
        let full : num good n pids ≡ n = ground (arith, num-le good n pids) in
        num-full good n k pids full (ground arith)
  ]

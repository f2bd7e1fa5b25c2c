-- ===== src/Loops/Bytes.antt =====
-- `paint` and `is_painted`: runs of bytes.
use mitosis_tests.Base.{ℕ, zero, suc, ◌+◌, ◌≤◌, ◌<◌, ◌≡◌, refl, ◌≢◌, true, false, arith}
use mitosis_tests.Machine.{Memory, Remembers}
use mitosis_tests.Loops.Code.{paint, is_painted}

module _ {W : Type 0} ⦃mem : Memory W⦄ {byte word : W → ℕ → ℕ} (r : Remembers mem byte word) where
  -- What `paint` leaves alone, and what it writes.
  pub paint-below : (a v n b : ℕ) (w : W) → b < a → byte (paint a v n w) b ≡ byte w b
  unfolding paint
  paint-below a v zero b w h = refl
  paint-below a v (suc n) b w h =
      ground (arith, paint-below (a + 1) v n b (mem.store a v w), r.store_other a v b w)

  pub paint-above : (a v n b : ℕ) (w : W) → a + n ≤ b → byte (paint a v n w) b ≡ byte w b
  unfolding paint
  paint-above a v zero b w h = refl
  paint-above a v (suc n) b w h =
      ground (arith, paint-above (a + 1) v n b (mem.store a v w), r.store_other a v b w)

  pub paint-at : (a v n b : ℕ) (w : W) → v < 256 → a ≤ b → b < a + n → byte (paint a v n w) b ≡ v
  unfolding paint
  paint-at a v zero b w small le lt = absurd (omega arith)
  paint-at a v (suc n) b w small le lt =
      let w1 = mem.store a v w in
      ground (arith, paint-at (a + 1) v n b w1, paint-below (a + 1) v n b w1, r.store_same a v w)

  -- Reading changes no byte.
  pub is_painted-byte : (a v n b : ℕ) (w : W) → byte (is_painted a v n w).1 b ≡ byte w b
  unfolding is_painted
  is_painted-byte a v zero b w = refl
  is_painted-byte a v (suc n) b w =
      ground (arith, is_painted-byte (a + 1) v n b (mem.load a w).1, r.load_byte a b w)

  -- The loop runs to its end where every byte is the one that it looks for, and stops where the first
  -- byte is another.
  pub is_painted-true :
      (a v n : ℕ) (w : W)
      → ((b : ℕ) → a ≤ b → b < a + n → byte w b ≡ v)
      → (is_painted a v n w).0 ≡ true
  unfolding is_painted
  is_painted-true a v zero w h = refl
  is_painted-true a v (suc n) w h =
      let rest =
        is_painted-true (a + 1) v n (mem.load a w).1
          (λ b le lt. ground (arith, r.load_byte a b w, h b)) in
      ground (arith, r.load_value a w, h a)

  pub is_painted-false : (a v n : ℕ) (w : W) → 0 < n → byte w a ≢ v → (is_painted a v n w).0 ≡ false
  unfolding is_painted
  is_painted-false a v zero w pos_n h = absurd (omega arith)
  is_painted-false a v (suc n) w pos_n h = ground (arith, r.load_value a w)

  -- After a run of writes the check of the same run succeeds.
  pub is_painted-paint : (a v n : ℕ) (w : W) → v < 256 → (is_painted a v n (paint a v n w)).0 ≡ true
  is_painted-paint a v n w small =
      is_painted-true a v n (paint a v n w) (λ b le lt. paint-at a v n b w small le lt)

-- ===== src/Loops/Words.antt =====
-- `fill` and `verify`: runs of words.
use mitosis_tests.Base.{
  ℕ, zero, suc, ◌+◌, ◌*◌, ◌^◌, ◌≤◌, ◌<◌, ◌≡◌, refl, ◌∙◌, ◌≢◌, true, false, arith,
}
use mitosis_tests.Machine.{Memory, Remembers}
use mitosis_tests.Loops.Code.{fill, verify}

module _ {W : Type 0} ⦃mem : Memory W⦄ {byte word : W → ℕ → ℕ} (r : Remembers mem byte word) where
  -- What `fill` leaves alone.
  fill-below : (a v n b : ℕ) (w : W) → b + 4 ≤ a → word (fill a v n w) b ≡ word w b
  unfolding fill
  fill-below a v zero b w h = refl
  fill-below a v (suc n) b w h =
      fill-below (a + 4) v n b (mem.store32 a v w) (omega arith) ∙ r.store32_below a v b w h

  fill-above : (a v n b : ℕ) (w : W) → a + 4 * n ≤ b → word (fill a v n w) b ≡ word w b
  unfolding fill
  fill-above a v zero b w h = refl
  fill-above a v (suc n) b w h =
      fill-above (a + 4) v n b (mem.store32 a v w) (omega arith)
      ∙ r.store32_above a v b w (omega arith)

  -- What it writes: the words at `a + 4 * i` for every `i` below `n`.
  pub fill-at : (a v n i : ℕ) (w : W) → v < 2 ^ 32 → i < n → word (fill a v n w) (a + 4 * i) ≡ v
  unfolding fill
  fill-at a v zero i w small h = elim h [ ]
  fill-at a v (suc n) zero w small h =
      let e : a + 4 * 0 ≡ a = omega arith in
      rw e (fill-below (a + 4) v n a (mem.store32 a v w) (omega arith) ∙ r.store32_same a v w small)
  fill-at a v (suc n) (suc i) w small h =
      let e : a + 4 * suc i ≡ a + 4 + 4 * i = omega arith in
      rw e (fill-at (a + 4) v n i (mem.store32 a v w) small (omega arith))

  -- Reading changes no word.
  pub verify-word : (a v n b : ℕ) (w : W) → word (verify a v n w).1 b ≡ word w b
  unfolding verify
  verify-word a v zero b w = refl
  verify-word a v (suc n) b w =
      ground (arith, verify-word (a + 4) v n b (mem.load32 a w).1, r.load32_word a b w)

  -- The loop runs to its end where every word is the one that it looks for.
  pub verify-true :
      (a v n : ℕ) (w : W) → ((i : ℕ) → i < n → word w (a + 4 * i) ≡ v) → (verify a v n w).0 ≡ true
  unfolding verify
  verify-true a v zero w h = refl
  verify-true a v (suc n) w h =
      let e : word w a ≡ v = let z : a + 4 * 0 ≡ a = omega arith in rw z at (h 0 (omega arith)) in
      let rest = verify-true (a + 4) v n (mem.load32 a w).1 (λ i lt.
        let s : a + 4 * suc i ≡ a + 4 + 4 * i = omega arith in
        r.load32_word a (a + 4 + 4 * i) w ∙ (rw s at (h (suc i) (omega arith)))) in
      ground (arith, r.load32_value a w)

  -- It stops where the first word is another.
  pub verify-false : (a v n : ℕ) (w : W) → 0 < n → word w a ≢ v → (verify a v n w).0 ≡ false
  unfolding verify
  verify-false a v zero w pos_n h = absurd (omega arith)
  verify-false a v (suc n) w pos_n h = ground (arith, r.load32_value a w)

-- ===== src/Loops/Pages.antt =====
-- `write_words`, `write_bytes` and the loops that read them back: one item on each page.
use mitosis_tests.Base.{
  ℕ, zero, suc, ◌+◌, ◌*◌, ◌^◌, ◌≤◌, ◌<◌, ◌≡◌, refl, ◌∙◌, ◌≢◌, true, false, arith, ℕ_discrete,
}
use mitosis_tests.Machine.{Memory, Remembers}
use mitosis_tests.Loops.Code.{write_bytes, write_words, agree_words, verify_bytes}

module _ {W : Type 0} ⦃mem : Memory W⦄ {byte word : W → ℕ → ℕ} (r : Remembers mem byte word) where
  pub write_words-below :
      (f : ℕ → ℕ) (p i n b : ℕ) (w : W)
      → b + 4 ≤ p + i * 4096
      → word (write_words f p i n w) b ≡ word w b
  unfolding write_words
  write_words-below f p i zero b w h = refl
  write_words-below f p i (suc n) b w h =
      write_words-below f p (i + 1) n b (mem.store32 (p + i * 4096) (f i) w) (omega arith)
      ∙ r.store32_below (p + i * 4096) (f i) b w h

  write_words-above :
      (f : ℕ → ℕ) (p i n b : ℕ) (w : W)
      → p + (i + n) * 4096 ≤ b
      → word (write_words f p i n w) b ≡ word w b
  unfolding write_words
  write_words-above f p i zero b w h = refl
  write_words-above f p i (suc n) b w h =
      write_words-above f p (i + 1) n b (mem.store32 (p + i * 4096) (f i) w) (omega arith)
      ∙ r.store32_above (p + i * 4096) (f i) b w (omega arith)

  write_words-at :
      (f : ℕ → ℕ) (p i n k : ℕ) (w : W)
      → ((j : ℕ) → f j < 2 ^ 32)
      → i ≤ k
      → k < i + n
      → word (write_words f p i n w) (p + k * 4096) ≡ f k
  unfolding write_words
  write_words-at f p i zero k w small le lt = absurd (omega arith)
  write_words-at f p i (suc n) k w small le lt = elim (ℕ_discrete i k) [
    | yes e ↦ rw (← e) (
        write_words-below f p (i + 1) n (p + i * 4096) (mem.store32 (p + i * 4096) (f i) w)
          (omega arith)
        ∙ r.store32_same (p + i * 4096) (f i) w (small i))
    | no ne ↦
        write_words-at f p (i + 1) n k (mem.store32 (p + i * 4096) (f i) w) small (omega arith)
          (omega arith)
  ]

  pub agree_words-word :
      (f : ℕ → ℕ) (p i n b : ℕ) (w : W) → word (agree_words f p i n w).1 b ≡ word w b
  unfolding agree_words
  agree_words-word f p i zero b w = refl
  agree_words-word f p i (suc n) b w =
      agree_words-word f p (i + 1) n b (mem.load32 (p + i * 4096) w).1
      ∙ r.load32_word (p + i * 4096) b w

  -- Some page among those read does not hold its word.
  pub agree_words-false :
      (f : ℕ → ℕ) (p i n : ℕ) (w : W)
      → 0 < n
      → word w (p + i * 4096) ≢ f i
      → (agree_words f p i n w).0 ≡ false
  unfolding agree_words
  agree_words-false f p i zero w pos_n h = absurd (omega arith)
  agree_words-false f p i (suc n) w pos_n h = ground (arith, r.load32_value (p + i * 4096) w)

  agree_words-true :
      (f : ℕ → ℕ) (p i n : ℕ) (w : W)
      → ((k : ℕ) → i ≤ k → k < i + n → word w (p + k * 4096) ≡ f k)
      → (agree_words f p i n w).0 ≡ true
  unfolding agree_words
  agree_words-true f p i zero w h = refl
  agree_words-true f p i (suc n) w h =
      let rest = agree_words-true f p (i + 1) n (mem.load32 (p + i * 4096) w).1 (λ k le lt.
        r.load32_word (p + i * 4096) (p + k * 4096) w ∙ h k (omega arith) (omega arith)) in
      ground (arith, r.load32_value (p + i * 4096) w, h i (omega arith) (omega arith))

  pub write_bytes-below :
      (f : ℕ → ℕ) (p i n b : ℕ) (w : W)
      → b < p + i * 4096
      → byte (write_bytes f p i n w) b ≡ byte w b
  unfolding write_bytes
  write_bytes-below f p i zero b w h = refl
  write_bytes-below f p i (suc n) b w h =
      write_bytes-below f p (i + 1) n b (mem.store (p + i * 4096) (f i) w) (omega arith)
      ∙ r.store_other (p + i * 4096) (f i) b w (omega arith)

  pub write_bytes-at :
      (f : ℕ → ℕ) (p i n k : ℕ) (w : W)
      → f k < 256
      → i ≤ k
      → k < i + n
      → byte (write_bytes f p i n w) (p + k * 4096) ≡ f k
  unfolding write_bytes
  write_bytes-at f p i zero k w small le lt = absurd (omega arith)
  write_bytes-at f p i (suc n) k w small le lt = elim (ℕ_discrete i k) [
    | yes e ↦ rw (← e) (
        write_bytes-below f p (i + 1) n (p + i * 4096) (mem.store (p + i * 4096) (f i) w)
          (omega arith)
        ∙ r.store_same (p + i * 4096) (f i) w (rw (← e) at small))
    | no ne ↦
        write_bytes-at f p (i + 1) n k (mem.store (p + i * 4096) (f i) w) small (omega arith)
          (omega arith)
  ]

  pub verify_bytes-true :
      (f : ℕ → ℕ) (p i n : ℕ) (w : W)
      → ((k : ℕ) → i ≤ k → k < i + n → byte w (p + k * 4096) ≡ f k)
      → (verify_bytes f p i n w).0 ≡ true
  unfolding verify_bytes
  verify_bytes-true f p i zero w h = refl
  verify_bytes-true f p i (suc n) w h =
      let rest = verify_bytes-true f p (i + 1) n (mem.load (p + i * 4096) w).1 (λ k le lt.
        r.load_byte (p + i * 4096) (p + k * 4096) w ∙ h k (omega arith) (omega arith)) in
      ground (arith, r.load_value (p + i * 4096) w, h i (omega arith) (omega arith))

  pub verify_bytes-byte :
      (f : ℕ → ℕ) (p i n b : ℕ) (w : W) → byte (verify_bytes f p i n w).1 b ≡ byte w b
  unfolding verify_bytes
  verify_bytes-byte f p i zero b w = refl
  verify_bytes-byte f p i (suc n) b w = grind (
    arith,
    r.load_byte (p + i * 4096) b w,
    verify_bytes-byte f p (i + 1) n b (mem.load (p + i * 4096) w).1,
  )

  -- A check that ran to its end has found the pattern.
  pub verify_bytes-found :
      (f : ℕ → ℕ) (p i n k : ℕ) (w : W)
      → (verify_bytes f p i n w).0 ≡ true
      → i ≤ k
      → k < i + n
      → byte w (p + k * 4096) ≡ f k
  unfolding verify_bytes
  verify_bytes-found f p i zero k w h le lt = absurd (omega arith)
  verify_bytes-found f p i (suc n) k w h le lt = ground (
    arith,
    r.load_value (p + i * 4096) w,
    r.load_byte (p + i * 4096) (p + k * 4096) w,
    verify_bytes-found f p (i + 1) n k (mem.load (p + i * 4096) w).1,
  )

  -- Writing a pattern of bytes and reading it back at once finds it on every page.
  pub verify_bytes-write_bytes :
      (f : ℕ → ℕ) (p i n : ℕ) (w : W)
      → ((k : ℕ) → k < i + n → f k < 256)
      → (verify_bytes f p i n (write_bytes f p i n w)).0 ≡ true
  verify_bytes-write_bytes f p i n w small =
      verify_bytes-true f p i n (write_bytes f p i n w)
        (λ k le lt. write_bytes-at f p i n k w (small k lt) le lt)

-- ===== src/Loops/Texts.antt =====
-- Strings, and the bytes `i % 256`: what was written is found again.
use mitosis_tests.Base.{
  ℕ, zero, suc, ◌+◌, ◌<◌, ◌≤◌, ◌≡◌, refl, sym, ◌∙◌, Bool, ◌&&◌, true, List, [], ◌∷◌, ◌++◌, arith,
  ltb, ℕ_discrete,
}
use mitosis_tests.Machine.{Memory, Remembers}
use mitosis_tests.Machine.Pool.{length}
use mitosis_tests.Loops.Code.{initial_byte, fill_initial, check_initial, copy_text, same_text}

-- Every character is a byte.
abbrev pub is_text : List ℕ → Bool
is_text [] = true
is_text (c ∷ text) = ltb c 256 && is_text text

module _ {W : Type 0} ⦃mem : Memory W⦄ {byte word : W → ℕ → ℕ} (r : Remembers mem byte word) where
  -- The bytes of a string are at its address.
  abbrev pub Holds : ℕ → List ℕ → W → Type 0
  Holds a [] w = Unit
  Holds a (c ∷ text) w = (byte w a ≡ c) × Holds (a + 1) text w

  Holds-load : (a b : ℕ) (text : List ℕ) (w : W) → Holds a text w → Holds a text (mem.load b w).1
  Holds-load a b [] w h = tt
  Holds-load a b (c ∷ text) w h = (r.load_byte b a w ∙ h.0, Holds-load (a + 1) b text w h.1)

  -- A string stays where no byte changes, and reading one changes none.
  pub Holds-kept :
      (a : ℕ) (text : List ℕ) (w w' : W)
      → ((b : ℕ) → byte w' b ≡ byte w b)
      → Holds a text w
      → Holds a text w'
  Holds-kept a [] w w' kept h = tt
  Holds-kept a (c ∷ text) w w' kept h = (kept a ∙ h.0, Holds-kept (a + 1) text w w' kept h.1)

  pub same_text-byte : (a b : ℕ) (text : List ℕ) (w : W) → byte (same_text a text w).1 b ≡ byte w b
  unfolding same_text
  same_text-byte a b [] w = refl
  same_text-byte a b (c ∷ text) w =
      ground (arith, r.load_byte a b w, same_text-byte (a + 1) b text (mem.load a w).1)

  pub same_text-true :
      (a : ℕ) (text : List ℕ) (w : W) → Holds a text w → (same_text a text w).0 ≡ true
  unfolding same_text
  same_text-true a [] w h = refl
  same_text-true a (c ∷ text) w h = ground (
    arith,
    r.load_value a w,
    same_text-true (a + 1) text (mem.load a w).1 (Holds-load (a + 1) a text w h.1),
  )

  -- A comparison that found two strings the same has found the string.
  pub same_text-found :
      (a : ℕ) (text : List ℕ) (w : W) → (same_text a text w).0 ≡ true → Holds a text w
  unfolding same_text
  same_text-found a [] w h = tt
  same_text-found a (c ∷ text) w h =
      let w1 = (mem.load a w).1 in
      let e : byte w a ≡ c = ground (arith, r.load_value a w) in
      let rest = same_text-found (a + 1) text w1 (ground arith) in
      (e, Holds-kept (a + 1) text w1 w (λ b. sym (r.load_byte a b w)) rest)

  copy_text-below :
      (a b : ℕ) (text : List ℕ) (w : W) → b < a → byte (copy_text a text w) b ≡ byte w b
  unfolding copy_text
  copy_text-below a b [] w h = refl
  copy_text-below a b (c ∷ text) w h =
      copy_text-below (a + 1) b text (mem.store a c w) (omega arith)
      ∙ r.store_other a c b w (omega arith)

  pub copy_text-Holds :
      (a : ℕ) (text : List ℕ) (w : W) → is_text text ≡ true → Holds a text (copy_text a text w)
  unfolding copy_text
  copy_text-Holds a [] w h = tt
  copy_text-Holds a (c ∷ text) w h = (
    copy_text-below (a + 1) a text (mem.store a c w) (omega arith)
        ∙ r.store_same a c w (ground arith),
    copy_text-Holds (a + 1) text (mem.store a c w) (ground arith),
  )

  -- strcat(): a string that is written behind the letters of another.
  pub copy_text-append :
      (a : ℕ) (letters old text : List ℕ) (w : W)
      → is_text text ≡ true
      → Holds a (letters ++ old) w
      → Holds a (letters ++ text) (copy_text (a + length letters) text w)
  copy_text-append a [] old text w good h =
      let e : a + 0 ≡ a = omega arith in rw e (copy_text-Holds a text w good)
  copy_text-append a (c ∷ letters) old text w good h =
      let e : a + suc (length letters) ≡ a + 1 + length letters = omega arith in
      rw e (
        copy_text-below (a + 1 + length letters) a text w (omega arith) ∙ h.0,
        copy_text-append (a + 1) letters old text w good h.1,
      )

  fill_initial-below : (a i n b : ℕ) (w : W) → b < a + i → byte (fill_initial a i n w) b ≡ byte w b
  unfolding fill_initial
  fill_initial-below a i zero b w h = refl
  fill_initial-below a i (suc n) b w h =
      fill_initial-below a (i + 1) n b (mem.store (a + i) (initial_byte i) w) (omega arith)
      ∙ r.store_other (a + i) (initial_byte i) b w (omega arith)

  pub fill_initial-at :
      (a i n k : ℕ) (w : W)
      → i ≤ k
      → k < i + n
      → byte (fill_initial a i n w) (a + k) ≡ initial_byte k
  unfolding fill_initial
  fill_initial-at a i zero k w le lt = absurd (omega arith)
  fill_initial-at a i (suc n) k w le lt = elim (ℕ_discrete i k) [
    | yes e ↦ rw (← e) (
        fill_initial-below a (i + 1) n (a + i) (mem.store (a + i) (initial_byte i) w) (omega arith)
        ∙ r.store_same (a + i) (initial_byte i) w (omega arith))
    | no ne ↦
        fill_initial-at a (i + 1) n k (mem.store (a + i) (initial_byte i) w) (omega arith)
          (omega arith)
  ]

  pub check_initial-true :
      (a i n : ℕ) (w : W)
      → ((k : ℕ) → i ≤ k → k < i + n → byte w (a + k) ≡ initial_byte k)
      → (check_initial a i n w).0 ≡ true
  unfolding check_initial
  check_initial-true a i zero w h = refl
  check_initial-true a i (suc n) w h =
      let rest =
        check_initial-true a (i + 1) n (mem.load (a + i) w).1
          (λ k le lt. r.load_byte (a + i) (a + k) w ∙ h k (omega arith) (omega arith)) in
      ground (arith, r.load_value (a + i) w, h i (omega arith) (omega arith))

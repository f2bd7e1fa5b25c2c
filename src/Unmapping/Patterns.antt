-- ===== src/Unmapping/Patterns.antt =====
-- The patterns of test14.c in mappings that lie apart.
use mitosis_tests.Base.{
  ℕ, zero, suc, ◌+◌, ◌*◌, ◌≤◌, ◌<◌, ◌≡◌, refl, ◌∙◌, ◌⊎◌, Bool, not, ◌&&◌, true, inl, inr, List, [],
  ◌∷◌, arith, is_neg, is_nonzero,
}
use mitosis_tests.Machine.{Process, Event, set, get, ok, ended, Outcome, Memory, Remembers, Fills}
use mitosis_tests.Unmapping.{page_size, test_size, copy_pattern, write_regions}

-- No SET answered an error, and no GET the empty mask.
abbrev pub is_enabled : List Event → Bool
is_enabled [] = true
is_enabled (set n a ∷ t) = not (is_neg a) && is_enabled t
is_enabled (get a ∷ t) = is_nonzero a && is_enabled t
is_enabled (_ ∷ t) = is_enabled t

-- One range ends where the other begins, or before.
abbrev pub AreApart : ℕ → ℕ → Type 0
AreApart a b = (a + test_size ≤ b) ⊎ (b + test_size ≤ a)

swap : {a b : ℕ} → AreApart a b → AreApart b a
swap (inl le) = inr le
swap (inr le) = inl le

module _ {W : Type 0} ⦃mem : Memory W⦄ {byte word : W → ℕ → ℕ} (r : Remembers mem byte word)
    (fills : Fills mem byte) where
  copy_pattern-below :
      (v a i n b : ℕ) (w : W) → b < a + i * page_size → byte (copy_pattern v a i n w) b ≡ byte w b
  unfolding copy_pattern
  copy_pattern-below v a i zero b w lt = refl
  copy_pattern-below v a i (suc n) b w lt =
      let w1 = mem.memset (a + i * page_size) v page_size w in
      copy_pattern-below v a (i + 1) n b w1 (omega arith)
      ∙ fills.before (a + i * page_size) v page_size b w lt

  copy_pattern-above :
      (v a i n b : ℕ) (w : W)
      → a + (i + n) * page_size ≤ b
      → byte (copy_pattern v a i n w) b ≡ byte w b
  unfolding copy_pattern
  copy_pattern-above v a i zero b w le = refl
  copy_pattern-above v a i (suc n) b w le =
      let w1 = mem.memset (a + i * page_size) v page_size w in
      copy_pattern-above v a (i + 1) n b w1 (omega arith)
      ∙ fills.behind (a + i * page_size) v page_size b w (omega arith)

  -- The first byte of a region that was written.
  copy_pattern-first : (v a n : ℕ) (w : W) → v < 256 → byte (copy_pattern v a 0 (suc n) w) a ≡ v
  unfolding copy_pattern
  copy_pattern-first v a n w lt =
      let w1 = mem.memset (a + 0 * page_size) v page_size w in
      copy_pattern-below v a (0 + 1) n a w1 (omega arith)
      ∙ fills.filled (a + 0 * page_size) v page_size a w lt (omega arith) (omega arith)

  -- Writing one region keeps the first byte of one that lies apart.
  copy_pattern-apart :
      (v a b : ℕ) (w : W) → AreApart a b → byte (copy_pattern v a 0 256 w) b ≡ byte w b
  copy_pattern-apart v a b w (inl le) = copy_pattern-above v a 0 256 b w (omega arith)
  copy_pattern-apart v a b w (inr le) = copy_pattern-below v a 0 256 b w (omega arith)

  -- A part that goes on with these first bytes in the first and the third region, and with no call that
  -- the trace shows as refused.
  abbrev pub Keeps : {A : Type 0} → ℕ → ℕ → List Event → Outcome A × Process W → Type 0
  Keeps addr1 addr3 t (ok a, s) =
      (byte s.env addr1 ≡ 0xAA) × (byte s.env addr3 ≡ 0xCC) × (is_enabled s.trace ≡ is_enabled t)
  Keeps addr1 addr3 t (ended n, s) = ⊥

  module _ (addr1 addr2 addr3 : ℕ) (apart12 : AreApart addr1 addr2) (apart13 : AreApart addr1 addr3)
      (apart23 : AreApart addr2 addr3) where
    pub write_regions-Keeps :
        (s : Process W) → Keeps addr1 addr3 s.trace (write_regions addr1 addr2 addr3 s)
    unfolding write_regions
    write_regions-Keeps s =
        let w1 = copy_pattern 0xAA addr1 0 256 s.env in
        let w2 = copy_pattern 0xBB addr2 0 256 w1 in
        let w3 = copy_pattern 0xCC addr3 0 256 w2 in
        let w4 = (mem.load addr1 w3).1 in
        let w5 = (mem.load addr2 w4).1 in
        let first : byte w3 addr1 ≡ 0xAA =
          copy_pattern-apart 0xCC addr3 addr1 w2 (swap apart13)
          ∙ copy_pattern-apart 0xBB addr2 addr1 w1 (swap apart12)
          ∙ copy_pattern-first 0xAA addr1 255 s.env (omega arith) in
        let second : byte w3 addr2 ≡ 0xBB =
          copy_pattern-apart 0xCC addr3 addr2 w2 (swap apart23)
          ∙ copy_pattern-first 0xBB addr2 255 w1 (omega arith) in
        let third : byte w3 addr3 ≡ 0xCC = copy_pattern-first 0xCC addr3 255 w2 (omega arith) in
        ground (
          arith,
          first,
          second,
          third,
          r.load_value addr1 w3,
          r.load_value addr2 w4,
          r.load_value addr3 w5,
          r.load_byte addr1 addr1 w3,
          r.load_byte addr1 addr2 w3,
          r.load_byte addr1 addr3 w3,
          r.load_byte addr2 addr1 w4,
          r.load_byte addr2 addr3 w4,
          r.load_byte addr3 addr1 w5,
          r.load_byte addr3 addr3 w5,
        )

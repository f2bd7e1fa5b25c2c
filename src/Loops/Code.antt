-- ===== src/Loops/Code.antt =====
-- The loops by which the tests write a pattern into memory and read it back.
use mitosis_tests.Base.{◌%◌, List, [], ◌∷◌, ℕ, zero, suc, ◌+◌, ◌*◌, Bool, true, false, ◌&&◌, ◌==◌}
use mitosis_tests.Machine.{Quiet, Memory}

-- The byte at an offset: `i & 0xFF`.
abbrev pub initial_byte : ℕ → ℕ
initial_byte i = i % 256

module _ {W : Type 0} ⦃mem : Memory W⦄ where
  -- `for (i = 0; i < n; i++) p[i] = v;` on words of four bytes.
  unfoldable pub fill : ℕ → ℕ → ℕ → W → W
  fill a v zero w = w
  fill a v (suc n) w = fill (a + 4) v n (mem.store32 a v w)

  -- `for (i = 0; i < n; i++) if (p[i] != v) <leave>;`: whether the loop ran to its end.
  unfoldable pub verify : ℕ → ℕ → ℕ → Quiet W Bool
  verify a v zero w = (true, w)
  verify a v (suc n) w =
      let (x, w') = mem.load32 a w in
      let rest = verify (a + 4) v n w' in elim (x == v) [ true ↦ rest | false ↦ (false, w') ]

  -- The same two loops on bytes.
  unfoldable pub paint : ℕ → ℕ → ℕ → W → W
  paint a v zero w = w
  paint a v (suc n) w = paint (a + 1) v n (mem.store a v w)

  unfoldable pub is_painted : ℕ → ℕ → ℕ → Quiet W Bool
  is_painted a v zero w = (true, w)
  is_painted a v (suc n) w =
      let (x, w') = mem.load a w in
      let rest = is_painted (a + 1) v n w' in elim (x == v) [ true ↦ rest | false ↦ (false, w') ]

  -- `for (i = 0; i < n; i++) p[i * 4096] = f(i);` on bytes and on words; `i` is the next page.
  unfoldable pub write_bytes : (ℕ → ℕ) → ℕ → ℕ → ℕ → W → W
  write_bytes f p i zero w = w
  write_bytes f p i (suc n) w = write_bytes f p (i + 1) n (mem.store (p + i * 4096) (f i) w)

  unfoldable pub write_words : (ℕ → ℕ) → ℕ → ℕ → ℕ → W → W
  write_words f p i zero w = w
  write_words f p i (suc n) w = write_words f p (i + 1) n (mem.store32 (p + i * 4096) (f i) w)

  -- `if (p[i * 4096] != f(i)) <note it>`: every page is looked at; whether all agreed.
  unfoldable pub agree_bytes : (ℕ → ℕ) → ℕ → ℕ → ℕ → Quiet W Bool
  agree_bytes f p i zero w = (true, w)
  agree_bytes f p i (suc n) w =
      let (x, w') = mem.load (p + i * 4096) w in
      let (rest, w'') = agree_bytes f p (i + 1) n w' in ((x == f i) && rest, w'')

  unfoldable pub agree_words : (ℕ → ℕ) → ℕ → ℕ → ℕ → Quiet W Bool
  agree_words f p i zero w = (true, w)
  agree_words f p i (suc n) w =
      let (x, w') = mem.load32 (p + i * 4096) w in
      let (rest, w'') = agree_words f p (i + 1) n w' in ((x == f i) && rest, w'')

  -- The same loop where a mismatch leaves it at once.
  unfoldable pub verify_bytes : (ℕ → ℕ) → ℕ → ℕ → ℕ → Quiet W Bool
  verify_bytes f p i zero w = (true, w)
  verify_bytes f p i (suc n) w =
      let (x, w') = mem.load (p + i * 4096) w in
      let rest = verify_bytes f p (i + 1) n w' in
      elim (x == f i) [ true ↦ rest | false ↦ (false, w') ]

  -- `p[i] = (char)(i & 0xFF);`, from `i` on
  unfoldable pub fill_initial : ℕ → ℕ → ℕ → W → W
  fill_initial a i zero w = w
  fill_initial a i (suc n) w = fill_initial a (i + 1) n (mem.store (a + i) (initial_byte i) w)

  -- strcpy(a, text), and strcmp(a, text) == 0
  unfoldable pub copy_text : ℕ → List ℕ → W → W
  copy_text a [] w = w
  copy_text a (c ∷ text) w = copy_text (a + 1) text (mem.store a c w)

  unfoldable pub same_text : ℕ → List ℕ → Quiet W Bool
  same_text a [] w = (true, w)
  same_text a (c ∷ text) w =
      let (x, w') = mem.load a w in
      let rest = same_text (a + 1) text w' in elim (x == c) [ true ↦ rest | false ↦ (false, w') ]

  -- `if (p[i] != (char)(i % 256)) <leave>;`, from `i` on
  unfoldable pub check_initial : (a i n : ℕ) → Quiet W Bool
  check_initial a i zero w = (true, w)
  check_initial a i (suc n) w =
      let (x, w') = mem.load (a + i) w in
      let rest = check_initial a (i + 1) n w' in
      elim (x == initial_byte i) [ true ↦ rest | false ↦ (false, w') ]

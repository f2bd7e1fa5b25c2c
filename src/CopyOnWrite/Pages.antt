-- ===== src/CopyOnWrite/Pages.antt =====
-- The loops of test10.c on memory that keeps what is written.
use mitosis_tests.Base.{ℕ, zero, suc, ◌+◌, ◌*◌, ◌≤◌, ◌<◌, ◌≡◌, refl, ◌≢◌, arith}
use mitosis_tests.Machine.{Memory, Remembers, Fills}
use mitosis_tests.CopyOnWrite.{label, init_pages, modify_pages}

module _ {W : Type 0} ⦃mem : Memory W⦄ {byte word : W → ℕ → ℕ} (r : Remembers mem byte word)
    (fills : Fills mem byte) where
  init_pages-below :
      (a i n k : ℕ) (w : W)
      → k < i
      → byte (init_pages a i n w) (a + k * 4096) ≡ byte w (a + k * 4096)
  unfolding init_pages
  init_pages-below a i zero k w lt = refl
  init_pages-below a i (suc n) k w lt =
      let w1 = mem.memset (a + i * 4096) (b'A' + i) 4096 w in
      let w2 = mem.store (a + i * 4096) (label i) w1 in
      ground (
        arith,
        init_pages-below a (i + 1) n k w2,
        r.store_other (a + i * 4096) (label i) (a + k * 4096) w1,
        fills.before (a + i * 4096) (b'A' + i) 4096 (a + k * 4096) w,
      )

  -- Every page has its label when the pages have been initialized.
  pub init_pages-at :
      (a i n k : ℕ) (w : W)
      → k < 200
      → i ≤ k
      → k < i + n
      → byte (init_pages a i n w) (a + k * 4096) ≡ label k
  unfolding init_pages
  init_pages-at a i zero k w small le lt = absurd (omega arith)
  init_pages-at a i (suc n) k w small le lt =
      let w1 = mem.memset (a + i * 4096) (b'A' + i) 4096 w in
      let w2 = mem.store (a + i * 4096) (label i) w1 in
      ground (
        arith,
        init_pages-at a (i + 1) n k w2,
        init_pages-below a (i + 1) n k w2,
        r.store_same (a + i * 4096) (label i) w1,
      )

  -- The pages that a loop over every second page does not reach keep their first byte.
  pub modify_pages-other :
      (first rest a i n k : ℕ) (w : W)
      → ((m : ℕ) → k ≢ i + 2 * m)
      → byte (modify_pages first rest a i n w) (a + k * 4096) ≡ byte w (a + k * 4096)
  unfolding modify_pages
  modify_pages-other first rest a i zero k w other = refl
  modify_pages-other first rest a i (suc n) k w other =
      let w1 = mem.store (a + i * 4096) first w in
      let w2 = mem.memset (a + i * 4096 + 1) rest 100 w1 in
      let here : k ≢ i = ground (arith, other 0) in
      ground (
        arith,
        modify_pages-other first rest a (i + 2) n k w2 (λ m e. other (m + 1) (omega arith)),
        r.store_other (a + i * 4096) first (a + k * 4096) w,
        fills.before (a + i * 4096 + 1) rest 100 (a + k * 4096) w1,
        fills.behind (a + i * 4096 + 1) rest 100 (a + k * 4096) w1,
      )

  modify_pages-below :
      (first rest a i n k : ℕ) (w : W)
      → k < i
      → byte (modify_pages first rest a i n w) (a + k * 4096) ≡ byte w (a + k * 4096)
  unfolding modify_pages
  modify_pages-below first rest a i zero k w lt = refl
  modify_pages-below first rest a i (suc n) k w lt =
      let w1 = mem.store (a + i * 4096) first w in
      let w2 = mem.memset (a + i * 4096 + 1) rest 100 w1 in
      ground (
        arith,
        modify_pages-below first rest a (i + 2) n k w2,
        r.store_other (a + i * 4096) first (a + k * 4096) w,
        fills.before (a + i * 4096 + 1) rest 100 (a + k * 4096) w1,
      )

  -- The pages that it reaches have the byte that it writes.
  pub modify_pages-at :
      (first rest a i n m : ℕ) (w : W)
      → first < 256
      → m < n
      → byte (modify_pages first rest a i n w) (a + (i + 2 * m) * 4096) ≡ first
  unfolding modify_pages
  modify_pages-at first rest a i zero m w small lt = absurd (omega arith)
  modify_pages-at first rest a i (suc n) zero w small lt =
      let w1 = mem.store (a + i * 4096) first w in
      let w2 = mem.memset (a + i * 4096 + 1) rest 100 w1 in
      let e : i + 2 * 0 ≡ i = omega arith in
      rw e (
        ground (
          arith,
          modify_pages-below first rest a (i + 2) n i w2,
          r.store_same (a + i * 4096) first w,
          fills.before (a + i * 4096 + 1) rest 100 (a + i * 4096) w1,
        ))
  modify_pages-at first rest a i (suc n) (suc m) w small lt =
      let w1 = mem.store (a + i * 4096) first w in
      let w2 = mem.memset (a + i * 4096 + 1) rest 100 w1 in
      let e : i + 2 * suc m ≡ i + 2 + 2 * m = omega arith in
      rw e (modify_pages-at first rest a (i + 2) n m w2 small (omega arith))

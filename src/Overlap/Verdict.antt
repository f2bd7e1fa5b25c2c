-- ===== src/Overlap/Verdict.antt =====
-- What the verdict of test17.c means on memory that keeps what is written.
use mitosis_tests.Base.{
  ℕ, ◌+◌, ◌*◌, ◌/◌, ◌≤◌, ◌<◌, ◌≡◌, ◌∙◌, true, false, some, arith, pos, inl, inr, Option-cases,
}
use mitosis_tests.Machine.{
  status, start, Process, ok, pr_set_pgtable_repl, pr_get_pgtable_repl, Replication, Memory,
  read_write, private_anonymous, fixed, Remembers, Replaces,
}
use mitosis_tests.Loops.{paint, is_painted}
use mitosis_tests.Loops.Bytes.{
  paint-below, paint-above, paint-at, is_painted-byte, is_painted-true, is_painted-false,
  is_painted-paint,
}
use mitosis_tests.Overlap.{
  map_size, pattern1, pattern2, pattern3, replace_all, replace_middle, body, main,
}

module _ {W : Type 0} ⦃mem : Memory W⦄ {byte word : W → ℕ → ℕ} (r : Remembers mem byte word) where
  module _ (f : Replaces mem byte) where
    replace_all-true : (ptr1 : ℕ) (s : Process W) → (replace_all ptr1 s).0 ≡ ok true
    unfolding replace_all
    replace_all-true ptr1 s =
        let w1 = (mem.mmap (fixed ptr1) (map_size * 2) read_write s.env).1 in
        ground (
          arith,
          f.fixed_answer ptr1 (map_size * 2) read_write s.env,
          is_painted-paint r ptr1 pattern3 (map_size * 2) w1 (omega arith),
        )

    -- The three parts of the mapping after the middle was replaced and painted.
    replace_middle-true :
        (ptr1 : ℕ) (s : Process W)
        → ((b : ℕ) → ptr1 ≤ b → b < ptr1 + map_size * 2 → byte s.env b ≡ pattern1)
        → (replace_middle ptr1 s).0 ≡ ok true
    unfolding replace_middle
    replace_middle-true ptr1 s painted =
        let mid : ℕ = ptr1 + map_size / 2 in
        let w1 = (mem.mmap (fixed mid) map_size read_write s.env).1 in
        let w2 = paint mid pattern2 map_size w1 in
        let w3 = (is_painted ptr1 pattern1 (map_size / 2) w2).1 in
        let w4 = (is_painted mid pattern2 map_size w3).1 in
        let w5 = (is_painted (mid + map_size) pattern1 (map_size / 2) w4).1 in
        let first = is_painted-true r ptr1 pattern1 (map_size / 2) w2 (λ b le lt.
          paint-below r mid pattern2 map_size b w1 (omega arith)
          ∙ f.fixed_before mid map_size b read_write s.env (omega arith)
          ∙ painted b le (omega arith)) in
        let middle = is_painted-true r mid pattern2 map_size w3 (λ b le lt.
          is_painted-byte r ptr1 pattern1 (map_size / 2) b w2
          ∙ paint-at r mid pattern2 map_size b w1 (omega arith) le lt) in
        let last = is_painted-true r (mid + map_size) pattern1 (map_size / 2) w4 (λ b le lt.
          is_painted-byte r mid pattern2 map_size b w3
          ∙ is_painted-byte r ptr1 pattern1 (map_size / 2) b w2
          ∙ paint-above r mid pattern2 map_size b w1 (omega arith)
          ∙ f.fixed_behind mid map_size b read_write s.env (omega arith)
          ∙ painted b (omega arith) (omega arith)) in
        ground (
          arith,
          f.fixed_answer mid map_size read_write s.env,
          replace_all-true ptr1 (record s { env = w5 }),
        )

    body-true : (ptr1 : ℕ) (s : Process W) → (body ptr1 s).0 ≡ ok true
    unfolding body
    body-true ptr1 s =
        let w1 = paint ptr1 pattern1 (map_size * 2) s.env in
        let w2 = (is_painted ptr1 pattern1 (map_size * 2) w1).1 in
        let painted = λ (b : ℕ) (le : ptr1 ≤ b) (lt : b < ptr1 + map_size * 2).
          is_painted-byte r ptr1 pattern1 (map_size * 2) b w1
          ∙ paint-at r ptr1 pattern1 (map_size * 2) b s.env (omega arith) le lt in
        ground (
          arith,
          is_painted-paint r ptr1 pattern1 (map_size * 2) s.env (omega arith),
          replace_middle-true ptr1 (record s { env = w2 }) painted,
        )

    -- On memory that keeps what is written, where MAP_FIXED always succeeds, at the address asked for, and
    -- changes no byte outside its range, test17.c passes, if replication can be switched on and the first
    -- mapping is granted.
    pub overlap-passes :
        ⦃sys : Replication W⦄
        → ((w : W) → (sys.prctl pr_set_pgtable_repl 1 w).0 ≡ pos 0)
        → ((w : W)
            → (a : ℕ) × ((mem.mmap private_anonymous (map_size * 2) read_write w).0 ≡ some a))
        → (w : W) → status main (start w) ≡ 0
    unfolding main
    overlap-passes ⦃sys⦄ switched granted w =
        let w1 = (sys.prctl pr_set_pgtable_repl 1 w).1 in
        let w2 = (sys.prctl pr_get_pgtable_repl 0 w1).1 in
        let (ptr1, e) = granted w2 in grind (arith, switched w, e, body-true)

  module _ (wiped : (a n b : ℕ) (w : W) → byte (mem.mmap (fixed a) n read_write w).1 b ≡ 0)
      (placed : (a n c : ℕ) (w : W) → (mem.mmap (fixed a) n read_write w).0 ≡ some c → c ≡ a) where
    replace_middle-false : (ptr1 : ℕ) (s : Process W) → (replace_middle ptr1 s).0 ≡ ok false
    unfolding replace_middle
    replace_middle-false ptr1 s =
        let mid : ℕ = ptr1 + map_size / 2 in
        let call = mem.mmap (fixed mid) map_size read_write s.env in
        let w2 = paint mid pattern2 map_size call.1 in
        let gone : byte w2 ptr1 ≡ 0 =
          paint-below r mid pattern2 map_size ptr1 call.1 (omega arith)
          ∙ wiped mid map_size ptr1 s.env in
        let seen = is_painted-false r ptr1 pattern1 (map_size / 2) w2 (omega arith) (omega arith) in
        elim (Option-cases call.0) [
          | inl e ↦ ground (arith, e)
          | inr (c, e) ↦
              let at_mid : c ≡ mid = placed mid map_size c s.env e in ground (arith, e, at_mid)
        ]

    body-false : (ptr1 : ℕ) (s : Process W) → (body ptr1 s).0 ≡ ok false
    unfolding body
    body-false ptr1 s =
        let w1 = paint ptr1 pattern1 (map_size * 2) s.env in
        let w2 = (is_painted ptr1 pattern1 (map_size * 2) w1).1 in
        ground (arith, replace_middle-false ptr1 (record s { env = w2 }))

    -- On memory that keeps what is written, test17.c fails on every kernel on which a mapping with
    -- MAP_FIXED goes nowhere but where it was asked for, and makes every byte zero, those outside its range
    -- too.
    overlap-rejects_wiped : ⦃sys : Replication W⦄ (w : W) → status main (start w) ≡ 1
    unfolding main
    overlap-rejects_wiped w = grind (arith, body-false)

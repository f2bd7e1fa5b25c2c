-- ===== src/Unmapping/Verdict.antt =====
-- What the verdict of test14.c is on mappings that lie apart.
use mitosis_tests.Base.{ℕ, ◌+◌, ◌≡◌, refl, true, some, inl, inr, Option-cases, List, arith}
use mitosis_tests.Machine.{
  Process, Program, pure, ◌>>=◌, Event, calls, status, Replication, Memory, read_write, fixed,
  fixed_noreplace, Remembers, Fills, Replaces, Unmaps,
}
use mitosis_tests.Unmapping.{
  page_size, test_size, half, write_regions, unmap_middle, use_gap, map_gap, unmap_half,
  unmap_parts, finish, use_regions,
}
use mitosis_tests.Unmapping.Patterns.{is_enabled, AreApart, write_regions-Keeps, Keeps}

module _ {W : Type 0} ⦃mem : Memory W⦄ {byte word : W → ℕ → ℕ} (r : Remembers mem byte word)
    (fills : Fills mem byte) where
  module _ (unmaps : Unmaps mem byte) (addr1 addr3 : ℕ) where
    unmap_middle-Keeps :
        (addr2 : ℕ) (s : Process W)
        → AreApart addr1 addr2
        → AreApart addr2 addr3
        → byte s.env addr1 ≡ 0xAA
        → byte s.env addr3 ≡ 0xCC
        → Keeps r fills addr1 addr3 s.trace (unmap_middle addr1 addr2 addr3 s)
    unfolding unmap_middle
    unmap_middle-Keeps addr2 s apart12 apart23 first third =
        let w1 = (mem.munmap addr2 test_size s.env).1 in
        let w2 = (mem.load addr1 w1).1 in
        ground (
          arith,
          unmaps.unmap_answer addr2 test_size s.env,
          unmaps.unmap_before addr2 test_size addr1 s.env,
          unmaps.unmap_behind addr2 test_size addr1 s.env,
          unmaps.unmap_before addr2 test_size addr3 s.env,
          unmaps.unmap_behind addr2 test_size addr3 s.env,
          r.load_value addr1 w1,
          r.load_value addr3 w2,
          r.load_byte addr1 addr1 w1,
          r.load_byte addr1 addr3 w1,
          r.load_byte addr3 addr1 w2,
          r.load_byte addr3 addr3 w2,
        )

    unmap_half-Keeps :
        (s : Process W)
        → AreApart addr1 addr3
        → byte s.env addr1 ≡ 0xAA
        → byte s.env addr3 ≡ 0xCC
        → Keeps r fills addr1 addr3 s.trace (unmap_half addr3 s)
    unfolding unmap_half
    unmap_half-Keeps s apart13 first third =
        let w1 = (mem.munmap (addr3 + half) half s.env).1 in
        ground (
          arith,
          unmaps.unmap_answer (addr3 + half) half s.env,
          unmaps.unmap_before (addr3 + half) half addr1 s.env,
          unmaps.unmap_behind (addr3 + half) half addr1 s.env,
          unmaps.unmap_before (addr3 + half) half addr3 s.env,
          r.load_value addr3 w1,
          r.load_byte addr3 addr1 w1,
          r.load_byte addr3 addr3 w1,
        )

    -- The new mapping is written on its first page only.
    use_gap-Keeps :
        (addr2 : ℕ) (s : Process W)
        → AreApart addr1 addr2
        → AreApart addr2 addr3
        → byte s.env addr1 ≡ 0xAA
        → byte s.env addr3 ≡ 0xCC
        → Keeps r fills addr1 addr3 s.trace (use_gap (some addr2) s)
    unfolding use_gap
    use_gap-Keeps addr2 s apart12 apart23 first third =
        let w1 = mem.memset addr2 0xDD page_size s.env in
        ground (
          arith,
          fills.filled addr2 0xDD page_size addr2 s.env,
          r.load_value addr2 w1,
          fills.before addr2 0xDD page_size addr1 s.env,
          fills.before addr2 0xDD page_size addr3 s.env,
          fills.behind addr2 0xDD page_size addr1 s.env,
          fills.behind addr2 0xDD page_size addr3 s.env,
          r.load_byte addr2 addr1 w1,
          r.load_byte addr2 addr3 w1,
        )

    map_gap-Keeps :
        (replaces : Replaces mem byte) (addr2 : ℕ) (s : Process W)
        → AreApart addr1 addr2
        → AreApart addr2 addr3
        → byte s.env addr1 ≡ 0xAA
        → byte s.env addr3 ≡ 0xCC
        → Keeps r fills addr1 addr3 s.trace (map_gap addr2 s)
    unfolding map_gap
    map_gap-Keeps replaces addr2 s apart12 apart23 first third =
        let w1 = (mem.mmap (fixed_noreplace addr2) half read_write s.env).1 in
        let w2 = (mem.mmap (fixed addr2) half read_write w1).1 in
        let kept1 : byte w1 addr1 ≡ byte s.env addr1 = ground (
          arith,
          unmaps.gap_before addr2 half addr1 read_write s.env,
          unmaps.gap_behind addr2 half addr1 read_write s.env,
        ) in
        let kept3 : byte w1 addr3 ≡ byte s.env addr3 = ground (
          arith,
          unmaps.gap_before addr2 half addr3 read_write s.env,
          unmaps.gap_behind addr2 half addr3 read_write s.env,
        ) in
        let left1 : byte w2 addr1 ≡ byte w1 addr1 = ground (
          arith,
          replaces.fixed_before addr2 half addr1 read_write w1,
          replaces.fixed_behind addr2 half addr1 read_write w1,
        ) in
        let left3 : byte w2 addr3 ≡ byte w1 addr3 = ground (
          arith,
          replaces.fixed_before addr2 half addr3 read_write w1,
          replaces.fixed_behind addr2 half addr3 read_write w1,
        ) in
        let go = λ (w : W) (t : List Event) (e : byte w addr1 ≡ 0xAA) (e' : byte w addr3 ≡ 0xCC).
          use_gap-Keeps addr2 (record { env = w; trace = t }) apart12 apart23 e e' in
        elim (Option-cases (mem.mmap (fixed_noreplace addr2) half read_write s.env).0) [
          | inl e ↦ grind (
            arith,
            e,
            kept1,
            kept3,
            left1,
            left3,
            go,
            replaces.fixed_answer addr2 half read_write w1,
          )
          | inr (a, e) ↦
              let here : a ≡ addr2 = unmaps.gap_answer addr2 half a read_write s.env e in
              grind (arith, e, here, kept1, kept3, go)
        ]

  -- Two parts one after the other, with what the first leaves.
  Keeps->>= :
      {A B : Type 0} (addr1 addr3 : ℕ) (m : Program W A) (k : A → Program W B) (s : Process W)
      → Keeps r fills addr1 addr3 s.trace (m s)
      → ((a : A) (s' : Process W)
          → byte s'.env addr1 ≡ 0xAA
          → byte s'.env addr3 ≡ 0xCC
          → Keeps r fills addr1 addr3 s'.trace (k a s'))
      → Keeps r fills addr1 addr3 s.trace ((m >>= k) s)
  Keeps->>= addr1 addr3 m k s first second = grind arith

  unmap_parts-Keeps :
      (unmaps : Unmaps mem byte) (replaces : Replaces mem byte) (addr1 addr2 addr3 : ℕ)
      → AreApart addr1 addr2
      → AreApart addr1 addr3
      → AreApart addr2 addr3
      → (s : Process W) → Keeps r fills addr1 addr3 s.trace (unmap_parts addr1 addr2 addr3 s)
  unfolding unmap_parts
  unmap_parts-Keeps unmaps replaces addr1 addr2 addr3 apart12 apart13 apart23 s =
      Keeps->>= addr1 addr3 (write_regions addr1 addr2 addr3) _ s
        (write_regions-Keeps r fills addr1 addr2 addr3 apart12 apart13 apart23 s)
        (λ _ s1 first1 third1.
          Keeps->>= addr1 addr3 (unmap_middle addr1 addr2 addr3) _ s1
            (unmap_middle-Keeps unmaps addr1 addr3 addr2 s1 apart12 apart23 first1 third1)
            (λ _ s2 first2 third2.
              Keeps->>= addr1 addr3 (map_gap addr2) _ s2
                (map_gap-Keeps unmaps addr1 addr3 replaces addr2 s2 apart12 apart23 first2 third2)
                (λ addr_new s3 first3 third3.
                  Keeps->>= addr1 addr3 (unmap_half addr3) (λ _. pure addr_new) s3
                    (unmap_half-Keeps unmaps addr1 addr3 s3 apart13 first3 third3)
                    (λ _ s4 first4 third4. (first4, third4, refl)))))

module _ {W : Type 0} ⦃mem : Memory W⦄ ⦃sys : Replication W⦄ {byte word : W → ℕ → ℕ}
    (r : Remembers mem byte word) (fills : Fills mem byte) (unmaps : Unmaps mem byte)
    (replaces : Replaces mem byte) where
  -- On memory that keeps what is written, where munmap() and mmap() with MAP_FIXED always succeed, the
  -- latter at the address asked for, where MAP_FIXED_NOREPLACE answers that address or is refused, and where
  -- none of the three changes a byte outside its range: from the writing of its patterns on, test14.c passes
  -- on three regions that lie apart, if no SET answers an error and no GET the empty mask.
  pub unmapping-passes :
      (addr1 addr2 addr3 : ℕ) (s : Process W)
      → AreApart addr1 addr2
      → AreApart addr1 addr3
      → AreApart addr2 addr3
      → is_enabled (calls (use_regions addr1 addr2 addr3) s) ≡ true
      → status (use_regions addr1 addr2 addr3) s ≡ 0
  unfolding use_regions finish
  unmapping-passes addr1 addr2 addr3 s apart12 apart13 apart23 enabled =
      let parts =
        unmap_parts-Keeps r fills unmaps replaces addr1 addr2 addr3 apart12 apart13 apart23 s in
      ground (arith, parts)

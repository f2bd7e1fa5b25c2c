-- ===== src/Cycles/Hygiene.antt =====
-- What test11.c leaves behind: the mappings of every cycle, on every path.
use mitosis_tests.Base.{
  ℕ, zero, suc, ◌+◌, ◌≡◌, refl, ap, ◌∙◌, ◌≢◌, ◌&&◌, ◌==◌, inl, inr, false, List, [], ◌∷◌, ◌++◌,
  reverse, arith, Option-cases,
}
use mitosis_tests.Machine.{
  same, armed, IsSettled, Resource, region, acquire, refused, status, calls, start, Owes, Process,
  Outcome, ok, ended, Replication, munmap, Memory, read_write, private_anonymous, Tasks,
}
use mathlib.Core.List.{reverse-append}
use mitosis_tests.Cycles.{
  num_cycles, pattern_of, unmap_all, map_pages, use_pages, one_cycle, cycles, main,
}

-- How often a resource is among the mapped pages.
abbrev owed : Resource → List ℕ → ℕ
owed r [] = 0
owed r (a ∷ l) = same r (region a 4096) + owed r l

owed-append : (r : Resource) (l m : List ℕ) → owed r (l ++ m) ≡ owed r l + owed r m
owed-append r [] m = omega arith
owed-append r (a ∷ l) m = omega (arith, owed-append r l m)

owed-reverse : (r : Resource) (l : List ℕ) → owed r (reverse l) ≡ owed r l
owed-reverse r [] = refl
owed-reverse r (a ∷ l) =
    ap (owed r) (reverse-append (a ∷ []) l)
    ∙ omega (arith, owed-append r (reverse l) (a ∷ []), owed-reverse r l)

module _ {W : Type 0} (r : Resource) where
  -- While the process runs it owes the pages in its hands, and nothing when it has ended.
  abbrev OwesPages : Outcome (List ℕ) × Process W → Type 0
  OwesPages (ok pages, s) = Owes r (owed r pages) s
  OwesPages (ended n, s) = Owes r 0 s

module _ {W : Type 0} ⦃mem : Memory W⦄ (r : Resource) where
  unmap_all_lem :
      (pages : List ℕ) (k : ℕ) (s : Process W)
      → Owes r (owed r pages + k) s
      → ((unmap_all pages s).0 ≡ ok tt) × Owes r k (unmap_all pages s).1
  unfolding unmap_all
  unmap_all_lem [] k s h = (refl, omega arith)
  unmap_all_lem (a ∷ l) k s h = unmap_all_lem l k (munmap a 4096 s).1 (omega arith)

  module _ ⦃sys : Replication W⦄ where
    map_pages-OwesPages :
        (cycle i n : ℕ) (before : List ℕ) (s : Process W)
        → Owes r (owed r before) s
        → OwesPages r (map_pages cycle i n before s)
    unfolding map_pages
    map_pages-OwesPages cycle i zero before s h = omega (arith, owed-reverse r before)
    map_pages-OwesPages cycle i (suc n) before s h =
        let call = mem.mmap private_anonymous 4096 read_write s.env in
        elim (Option-cases call.0) [
          | inl none_left ↦
              let failed : Process W = record { env = call.1; trace = refused ∷ s.trace } in
              ground (arith, unmap_all_lem before 0 failed (omega arith))
          | inr (a, e) ↦
              let w = mem.memset a (pattern_of cycle i) 4096 call.1 in
              let mapped : Process W = record {
                env = w;
                trace = acquire (region a 4096) ∷ s.trace;
              } in
              rw e (map_pages-OwesPages cycle (i + 1) n (a ∷ before) mapped (omega arith))
        ]

    use_pages-Owes :
        (cycle : ℕ) (pages : List ℕ) (s : Process W)
        → Owes r (owed r pages) s
        → Owes r 0 (use_pages cycle pages s).1
    unfolding use_pages
    use_pages-Owes cycle pages s h = grind (arith, unmap_all_lem pages 0)

    one_cycle-Owes : (cycle : ℕ) (s : Process W) → Owes r 0 s → Owes r 0 (one_cycle cycle s).1
    unfolding one_cycle
    one_cycle-Owes cycle s h = grind (arith, map_pages-OwesPages, use_pages-Owes)

    cycles-Owes :
        ⦃tasks : Tasks W⦄ (cycle n : ℕ) (s : Process W) → Owes r 0 s → Owes r 0 (cycles cycle n s).1
    unfolding cycles
    cycles-Owes cycle zero s h = h
    cycles-Owes ⦃tasks⦄ cycle (suc n) s h =
        let s1 = (one_cycle cycle s).1 in
        let rested : Process W = record s1 { env = tasks.usleep 10000 s1.env } in
        ground (arith, one_cycle-Owes cycle s h, cycles-Owes (cycle + 1) n rested)

module _ {W : Type 0} ⦃mem : Memory W⦄ ⦃sys : Replication W⦄ where
  unmap_all-ok : (pages : List ℕ) (s : Process W) → (unmap_all pages s).0 ≡ ok tt
  unfolding unmap_all
  unmap_all-ok [] s = refl
  unmap_all-ok (a ∷ l) s = unmap_all-ok l (munmap a 4096 s).1

  map_pages-ne-passed :
      (cycle i n : ℕ) (before : List ℕ) (s : Process W) → (map_pages cycle i n before s).0 ≢ ended 0
  unfolding map_pages
  map_pages-ne-passed cycle i zero before s h = cc
  map_pages-ne-passed cycle i (suc n) before s h =
      let call = mem.mmap private_anonymous 4096 read_write s.env in
      elim (Option-cases call.0) [
        | inl none_left ↦
            let failed : Process W = record { env = call.1; trace = refused ∷ s.trace } in
            ground (arith, unmap_all-ok before failed)
        | inr (a, e) ↦
            let w = mem.memset a (pattern_of cycle i) 4096 call.1 in
            let mapped : Process W = record {
              env = w;
              trace = acquire (region a 4096) ∷ s.trace;
            } in
            map_pages-ne-passed cycle (i + 1) n (a ∷ before) mapped (rw e at h)
      ]

  one_cycle-ne-passed : (cycle : ℕ) (s : Process W) → (one_cycle cycle s).0 ≢ ended 0
  unfolding one_cycle use_pages
  one_cycle-ne-passed cycle s h = grind (arith, unmap_all-ok, map_pages-ne-passed)

  cycles-ne-passed :
      ⦃tasks : Tasks W⦄ (cycle n : ℕ) (s : Process W) → (cycles cycle n s).0 ≢ ended 0
  unfolding cycles
  cycles-ne-passed cycle zero s h = cc
  cycles-ne-passed ⦃tasks⦄ cycle (suc n) s h =
      let s1 = (one_cycle cycle s).1 in
      let rested : Process W = record s1 { env = tasks.usleep 10000 s1.env } in
      ground (arith, one_cycle-ne-passed cycle s, cycles-ne-passed (cycle + 1) n rested)

  -- Whatever the system answers, and in whichever cycle test11.c ends, every page that it has mapped by
  -- then has been unmapped, once for each time that it was mapped; and when test11.c passes, it has not
  -- switched replication on since it last asked for it to be switched off.
  pub cycles-IsSettled :
      ⦃tasks : Tasks W⦄ (w : W)
      → let t = calls main (start w) in
        IsSettled t × ((armed t && (status main (start w) == 0)) ≡ false)
  unfolding main
  cycles-IsSettled w = (
    λ r. ground (arith, cycles-Owes r 0 num_cycles (start w)),
    ground (arith, cycles-ne-passed 0 num_cycles (start w)),
  )

-- ===== src/Examples/Regions.antt =====
-- test14.c, test22.c and test23.c on the small machine.
use mitosis_tests.Base.{◌≡◌, refl, true, none, some, [], ◌∷◌, ◌==◌, if◌then◌else◌, inl, arith, pos}
use mitosis_tests.Machine.{Huge, Migration, Unmaps, status, calls, start}
use mitosis_tests.Examples.Kernel.{
  Demo, off, on, steady, memory, demo-Fills, demo-Protects, demo-Replaces, demo_memory, demo_nodes,
  demo_policies, grant,
}
use mitosis_tests.Unmapping
use mitosis_tests.Unmapping.Patterns.{is_enabled}
use mitosis_tests.Unmapping.Verdict.{unmapping-passes}
use mitosis_tests.HugePages
use mitosis_tests.HugePages.Verdict.{is_switched, huge_pages-passes}
use mitosis_tests.PageMigration
use mitosis_tests.PageMigration.Verdict.{migration-rejects_lost}

demo-Unmaps : Unmaps demo_memory (λ d. d.byte)
demo-Unmaps = record {
  unmap_answer = λ a n w. refl;
  unmap_before = λ a n b w h. refl;
  unmap_behind = λ a n b w h. refl;
  gap_answer = λ a n c p w e. ground arith;
  gap_before = λ a n b p w h. refl;
  gap_behind = λ a n b p w h. refl;
}

enabled :
    is_enabled (calls (Unmapping.use_regions ⦃sys = steady⦄ 0x100000 0x200000 0x300000) (start on))
    ≡ true
unfolding Unmapping.use_regions Unmapping.unmap_parts Unmapping.write_regions Unmapping.unmap_middle
    Unmapping.map_gap Unmapping.use_gap Unmapping.unmap_half Unmapping.finish Unmapping.copy_pattern
enabled = refl

unmapping-passes_example :
    status (Unmapping.use_regions ⦃sys = steady⦄ 0x100000 0x200000 0x300000) (start on) ≡ 0
unmapping-passes_example =
    unmapping-passes ⦃sys = steady⦄ memory demo-Fills demo-Unmaps demo-Replaces 0x100000 0x200000
      0x300000 (start on) (inl (omega arith)) (inl (omega arith)) (inl (omega arith)) enabled

instance abbrev demo_huge : Huge Demo
demo_huge = record {
  posix_memalign = λ alignment n d. grant n d;
  advise_huge = λ a n d. (pos 0, d);
}

switched : is_switched (calls (HugePages.main ⦃sys = steady⦄) (start off)) ≡ true
unfolding HugePages.main HugePages.run HugePages.use_explicit HugePages.split
switched = ground arith

huge_pages-passes_example : status (HugePages.main ⦃sys = steady⦄) (start off) ≡ 0
huge_pages-passes_example =
    huge_pages-passes memory demo-Protects (λ a n w. refl) ⦃sys = steady⦄ 4096 off refl switched

-- A migration that loses the start of its first page.
abbrev losing : Migration Demo
losing = record {
  move_pages = λ pages nodes d. (
    pos 0,
    elim nodes [
      | none ↦ d
      | some _ ↦ elim pages [
        | [] ↦ d
        | a ∷ _ ↦ record d { word = λ b. if b == a then 0 else d.word b }
      ]
    ],
  );
}

migration-rejects_lost_example :
    status (PageMigration.main ⦃migration = losing⦄ ⦃sys = steady⦄) (start off) ≡ 1
migration-rejects_lost_example =
    migration-rejects_lost ⦃migration = losing⦄ ⦃sys = steady⦄ memory
      (λ a pages nodes w. ground arith) off refl (omega arith)

-- ===== src/Examples/Programs.antt =====
-- Runs of the programs on the small machine, and the theorems at it.
use mitosis_tests.Base.{
  ◌&&◌, ◌==◌, ℕ, ◌<◌, ◌+◌, ◌*◌, ◌≡◌, refl, ◌↔◌, true, false, [], ◌∷◌, arith, is_nonzero, pos,
}
use mitosis_tests.Machine.{IsSettled, armed, set, get, status, calls, start, Process}
use mitosis_tests.Examples.Kernel.{
  Demo, demo-Fills, demo-Isolates, demo-Replaces, off, on, demo_replication, demo_memory,
  demo_tasks, demo_nodes, demo_limits, demo_files, demo_policies, demo-Switches, demo-Forks,
  with-Remembers, demo-Discards, demo-Protects, zeroed,
}
use mitosis_tests.Loops.{verify_bytes}
use mitosis_tests.CopyOnWrite
use mitosis_tests.CopyOnWrite.Verdict.{child_end, parent_end, cow-passes_only}
use mitosis_tests.CopyOnWrite.Isolation.{cow-passes}
use mitosis_tests.RegionKinds
use mitosis_tests.RegionKinds.Numbers.{number_words-true_iff}
use mitosis_tests.Toggle
use mitosis_tests.Toggle.Verdict.{IsFullCycle, toggle-passes_iff}
use mitosis_tests.Inherit
use mitosis_tests.Inherit.Verdict.{
  IsSteadyParent, IsFreshChild, child_world, inherit-passes_only, inherit-passes,
}
use mitosis_tests.Discard.Partial
use mitosis_tests.Discard.Verdict.{partial-passes}
use mitosis_tests.Cycles
use mitosis_tests.Cycles.Hygiene.{cycles-IsSettled}
use mitosis_tests.NodeMask
use mitosis_tests.NodeMask.Verdict.{shows_both, node_mask-passes_only}
use mitosis_tests.CloneFlags
use mitosis_tests.CloneFlags.Verdict.{clone_plain-passes_only}
use mitosis_tests.Overlap
use mitosis_tests.Overlap.Verdict.{overlap-passes}

-- The calls of test1.c, computed.
toggle_run :
    calls Toggle.main (start off)
    ≡ get (pos 0) ∷ set 0 (pos 0) ∷ get (pos 3) ∷ set 1 (pos 0) ∷ get (pos 0) ∷ []
unfolding Toggle.main
toggle_run = refl

toggle-passes_iff_example :
    (status Toggle.main (start off) ≡ 0) ↔ IsFullCycle (calls Toggle.main (start off))
toggle-passes_iff_example = toggle-passes_iff off

inherit-passes_example : status Inherit.main (start off) ≡ 0
inherit-passes_example = inherit-passes demo-Switches demo-Forks off

inherit-passes_only_example :
    IsSteadyParent (calls Inherit.main (start off))
    × IsFreshChild (calls Inherit.child (start (child_world off)))
unfolding Inherit.main Inherit.child
inherit-passes_only_example = inherit-passes_only (λ pid n c v. refl) off refl

partial-passes_example : status Partial.main (start off) ≡ 0
partial-passes_example =
    partial-passes (with-Remembers zeroed (pos 0)) demo-Discards demo-Protects (λ w. refl)
      (λ w. (w.next, refl)) off

node_mask-passes_only_example :
    (shows_both (calls NodeMask.main (start off)) ≡ true)
    × (armed (calls NodeMask.main (start off)) ≡ false)
unfolding NodeMask.main NodeMask.tests NodeMask.one_node NodeMask.two_nodes NodeMask.missing_node
    NodeMask.all_nodes
node_mask-passes_only_example = node_mask-passes_only off refl (omega arith) refl

clone_plain-passes_only_example :
    ((demo_replication.prctl 101 0 (demo_tasks.clone false on).child).0 ≡ pos 0)
    × (is_nonzero (demo_replication.prctl 101 0 (demo_tasks.clone false on).parent).0 ≡ true)
unfolding CloneFlags.clone_plain CloneFlags.child_func
clone_plain-passes_only_example =
    clone_plain-passes_only (λ pid n c v. refl) 64 (start on) refl refl

-- The process of test10.c when its pages, mapped at 4096, were initialized.
abbrev shared : Process Demo
shared = record { env = CopyOnWrite.init_pages 4096 0 CopyOnWrite.num_pages on; trace = [] }

cow-passes_example : status (CopyOnWrite.share 4096) shared ≡ 0
unfolding CopyOnWrite.init_pages CopyOnWrite.modify_pages verify_bytes
cow-passes_example =
    cow-passes (with-Remembers zeroed (pos 0)) demo-Fills demo-Isolates (λ pid n c v. refl)
      (λ w. refl) (λ w. refl) 4096 on [] refl

cow-passes_only_example :
    ((child_end 4096 shared.env).byte (4096 + 3 * 4096) ≡ b'3')
    × ((parent_end 4096 shared.env).byte (4096 + 3 * 4096) ≡ b'P')
cow-passes_only_example =
    cow-passes_only (with-Remembers zeroed (pos 0)) (λ pid n c v. refl) 4096 shared refl
      cow-passes_example 3 (omega arith)

number_words-true_iff_example :
    (((RegionKinds.number_words 4096 0 3 off).0 ≡ true)
      ↔ ((k : ℕ) → k < 3 → off.word (4096 + 4 * k) ≡ 0))
    × ((RegionKinds.number_words 4096 0 3 off).0 ≡ true
        → (RegionKinds.verify_numbers 4096 0 3 (RegionKinds.number_words 4096 0 3 off).1).0 ≡ true)
number_words-true_iff_example =
    number_words-true_iff (with-Remembers zeroed (pos 0)) 4096 3 off (omega arith)

overlap-passes_example : status Overlap.main (start off) ≡ 0
overlap-passes_example =
    overlap-passes (with-Remembers zeroed (pos 0)) demo-Replaces (λ w. refl) (λ w. (w.next, refl))
      off

cycles-IsSettled_example :
    IsSettled (calls Cycles.main (start off))
    × ((armed (calls Cycles.main (start off)) && (status Cycles.main (start off) == 0)) ≡ false)
cycles-IsSettled_example = cycles-IsSettled off

-- ===== src/Examples/Files.antt =====
-- test19.c on the small machine.
use mitosis_tests.Base.{◌≡◌, refl, pos}
use mitosis_tests.Machine.{Process, status, start}
use mitosis_tests.Examples.Kernel.{
  Demo, on, zeroed, with-Remembers, demo-Isolates, demo_replication, demo_memory, demo_tasks,
  demo_files,
}
use mitosis_tests.PrivateFile.{modify, share}
use mitosis_tests.PrivateFile.Isolation.{share-passes}

share-passes_example : status (share 3) (start on) ≡ 0
share-passes_example =
    share-passes (with-Remembers zeroed (pos 0)) (λ n w. refl) demo-Isolates (λ w. refl)
      (λ pid n c w. refl) (λ fd w. (w.next, refl)) 3 (start on)

-- the process of test19.c when its child has ended
abbrev modified : Process Demo
modified = start (modify 4096 on)

-- ===== src/Examples/Workers.antt =====
-- test21.c on the small machine.
use mitosis_tests.Base.{◌≡◌, refl, [], pos}
use mitosis_tests.Machine.{status, start}
use mitosis_tests.Examples.Kernel.{
  off, zeroed, with-Remembers, demo-Isolates, demo_replication, demo_memory, demo_tasks,
  demo_reaping,
}
use mitosis_tests.Processes.{num_processes, fork_workers, main}
use mitosis_tests.Processes.Verdict.{IsComplete, processes-passes_only}
use mitosis_tests.Processes.Passing.{processes-passes}

processes-passes_example : status main (start off) ≡ 0
processes-passes_example =
    processes-passes (λ pid n v w. refl) (λ pid n v w. refl) (λ w. refl)
      (with-Remembers zeroed (pos 0)) demo-Isolates.sleep_byte demo-Isolates.prctl_byte
      (λ n w. refl) (λ w. (w.next, refl)) off

processes-passes_only_example : IsComplete 4 (fork_workers 0 num_processes [] (start off)).0
processes-passes_only_example =
    processes-passes_only (λ pid n v w. refl) off processes-passes_example

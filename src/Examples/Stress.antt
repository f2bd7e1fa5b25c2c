-- ===== src/Examples/Stress.antt =====
-- test35.c on the small machine.
use mitosis_tests.Base.{ℕ, ◌≡◌, refl, true, List, [], ◌∷◌, pos}
use mitosis_tests.Machine.{status, start, actual_node}
use mitosis_tests.Machine.Pool.{total, turn}
use mitosis_tests.Examples.Kernel.{
  Demo, on, demo_replication, demo_memory, demo_tasks, demo_threads, demo_reaping, demo_affinity,
}
use mitosis_tests.ForkStress.Calls
use mitosis_tests.ForkStress.Worker.{
  rank, advance, migration_thread, fault_thread, fault_pages, walk_pages, sum_up, touch,
}
use mitosis_tests.ForkStress.Rounds.{
  System, create_thread, worker, fork_child, check_parent, wait_child, verdict,
}
use mitosis_tests.ForkStress.Program.{is_over, last, stress, run, step, main_step}
use mitosis_tests.ForkStress.Slots.{num, is_fine}
use mitosis_tests.ForkStress.Ending.{stress-ends}
use mitosis_tests.ForkStress.Children.{stress-passes_only}

-- Some steps of the threads come between those that create them.
abbrev picks : List ℕ
picks = 0 ∷ 0 ∷ 0 ∷ 0 ∷ 0 ∷ 1 ∷ 1 ∷ 2 ∷ 0 ∷ 3 ∷ 2 ∷ 2 ∷ 4 ∷ []

abbrev stressed : System Demo
stressed = last 2 picks (λ k. pos 0) (start on)

stress-ends_example : is_over stressed.place ≡ true
stress-ends_example = stress-ends 2 picks (λ k. pos 0) (start on)

stress_passes : status (stress 2 picks (λ k. pos 0)) (start on) ≡ 0
unfolding stress run step main_step create_thread worker turn advance migration_thread
    Calls.pin_to_node Calls.cpus_of fault_thread fork_child check_parent Calls.check_replication
    actual_node fault_pages walk_pages wait_child Calls.child_process Calls.number_bytes verdict
    sum_up touch
stress_passes = refl

stress-passes_only_example :
    (num is_fine 15 stressed.child_pids ≡ 15)
    × (stressed.children_ok ≡ 15)
    × (total rank stressed.threads ≡ 0)
    × (stressed.shared.thread_failures ≡ 0)
stress-passes_only_example =
    stress-passes_only (λ pid n v w. refl) (λ w. refl) 2 picks (λ k. pos 0) (start on) stress_passes

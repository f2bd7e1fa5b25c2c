-- ===== src/Examples/Threads.antt =====
-- The programs with threads on the small machine.
use mitosis_tests.Base.{Bool, List, ◌≡◌, refl, true, false, [], ◌+◌, arith}
use mitosis_tests.Machine.{status, calls, start, actual_node}
use mitosis_tests.Machine.Pool.{crew, total, turn}
use mitosis_tests.Examples.Kernel.{
  Demo, off, demo_replication, demo_memory, demo_tasks, demo_nodes, demo_threads,
}
use mitosis_tests.Threaded.Handshake.{
  System, Reach, here, later, create, thread, go_on, stop, testing, asleep, working, joining,
  thread_step,
}
use mitosis_tests.Threaded.Joining.{is_blocked, handshake-ends}
use mitosis_tests.ThreadFork.Worker.{
  Worker, Shared, rank, advance, check_replication, pin_to_node, walk, page_walk,
}
use mitosis_tests.ThreadFork.Program
use mitosis_tests.ThreadFork.Counters.{threads-account}
use mitosis_tests.ThreadFork.Verdict.{gets, all_shown, thread_fork-passes_only}

-- test3.c between its waiting loop and the join
abbrev both_run : System
both_run = record { thread_running = true; main = working; thread = testing }

both_run-Reach : Reach both_run
unfolding thread_step
both_run-Reach =
    later (later (later here (create refl)) (thread (λ e. ground arith) (λ e. ground arith)))
      (go_on refl refl)

abbrev stopped : System
stopped = record { thread_running = false; main = joining; thread = asleep }

stopped-Reach : Reach stopped
unfolding thread_step
stopped-Reach =
    later (later both_run-Reach (thread (λ e. ground arith) (λ e. ground arith))) (stop refl)

handshake-ends_example : is_blocked (thread_step (thread_step stopped)) ≡ false
handshake-ends_example = handshake-ends stopped-Reach

-- `results` at first
abbrev no_results : Program.Results
no_results = record { parent_threads_ok = 0; failures = 0 }

thread_fork_passes : status (Program.main [] [] []) (start off) ≡ 0
unfolding Program.main check_replication Program.run_threads crew turn Program.worker advance
    pin_to_node actual_node walk page_walk Program.after_fork Program.child
thread_fork_passes = refl

thread_fork-passes_only_example :
    (all_shown (calls (Program.main [] [] []) (start off)) ≡ true)
    × (gets (calls (Program.main [] [] []) (start off)) ≡ 10)
thread_fork-passes_only_example = thread_fork-passes_only [] [] [] off thread_fork_passes

-- the process of test34.c before the second round of threads
abbrev shared : Shared Demo
shared = record { process = start off; parent_threads_ok = 0; failures = 0 }

abbrev second_round : record { created : Bool; threads : List Worker; shared : Shared Demo }
second_round =
    crew advance rank Program.create (Program.worker 2 1) Program.enough [] Program.num_threads []
      shared

threads-account_example :
    (total rank second_round.threads ≡ 0)
    × (second_round.shared.failures + second_round.shared.parent_threads_ok ≡ 4)
unfolding crew turn
threads-account_example = threads-account 2 [] shared refl

-- ===== src/Examples/Children.antt =====
-- test6.c and test8.c on the small machine.
use mitosis_tests.Base.{◌≡◌, refl, true, [], ◌∷◌, ◌++◌, arith, is_positive}
use mitosis_tests.Machine.{
  Process, Execs, Tasks, exited, ok, status, calls, start, pr_get_pgtable_repl,
}
use mitosis_tests.Loops.{copy_text, same_text}
use mitosis_tests.Loops.Texts.{Holds, copy_text-Holds}
use mitosis_tests.Inherit.Verdict.{IsFreshChild}
use mitosis_tests.Examples.Kernel.{Demo, on, memory, demo_memory, demo_replication, demo_tasks}
use mitosis_tests.Transition
use mitosis_tests.Transition.Verdict.{parent_end, transition-passes_only}
use mitosis_tests.SharedMemory
use mitosis_tests.SharedMemory.Verdict.{Shares, sharing-passes}

instance abbrev demo_execs : Execs Demo
demo_execs = record { execvp = λ d. (true, record d { mask = 0 }) }

-- test6.c before its fork
abbrev written : Process Demo
written = start (copy_text 4096 Transition.test_data on)

passed : status (Transition.transit 4096) written ≡ 0
unfolding Transition.transit Transition.child Transition.image Transition.finish copy_text same_text
passed = refl

transition-passes_only_example :
    (true ≡ true)
    × IsFreshChild (calls Transition.child (start (demo_tasks.fork written.env).child))
    × (is_positive (demo_replication.prctl pr_get_pgtable_repl 0 (parent_end written.env)).0 ≡ true)
    × Holds memory 4096 Transition.test_data
        (demo_replication.prctl pr_get_pgtable_repl 0 (parent_end written.env)).1
transition-passes_only_example =
    transition-passes_only memory (λ pid n c v. refl) 4096 written passed

-- The child of fork() works on the memory of its parent.
abbrev sharing : Tasks Demo
sharing = record demo_tasks {
  waitpid = λ pid n c d. (exited n, record d { byte = c.byte; word = c.word });
}

sharing-Shares : Shares demo_replication sharing demo_memory (λ d. d.byte) (λ d. d.word) 4096
sharing-Shares = record {
  fork_byte = λ b w le lt. refl;
  fork_word = λ w. refl;
  wait_byte = λ pid n b c w le lt. refl;
  wait_word = λ pid n c w. refl;
  prctl_byte = λ option n b w le lt. ground arith;
  prctl_word = λ option n w. ground arith;
  store32_byte = λ v b w le. refl;
  load32_byte = λ b w le. refl;
  store_word = λ b v w le. refl;
  load_word = λ b w le. refl;
}

-- test8.c before its fork
abbrev prepared : Process Demo
prepared = start (copy_text 4100 (SharedMemory.parent_letters ++ (0 ∷ [])) on)

counter : prepared.env.word 4096 ≡ 0
unfolding copy_text
counter = refl

sharing-passes_example : (SharedMemory.share ⦃tasks = sharing⦄ 4096 prepared).0 ≡ ok tt
sharing-passes_example =
    sharing-passes memory ⦃tasks = sharing⦄ 4096 sharing-Shares (λ pid n c v. refl) prepared refl
      refl counter (copy_text-Holds memory 4100 (SharedMemory.parent_letters ++ (0 ∷ [])) on refl)

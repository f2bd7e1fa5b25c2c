-- ===== src/Examples/Shared.antt =====
-- test20.c on the small machine.
use mitosis_tests.Base.{◌≡◌, refl, false, ◌==◌, if◌then◌else◌}
use mitosis_tests.Machine.{Process, start, exited, is_failure}
use mitosis_tests.Examples.Kernel.{Demo, on, demo_replication, demo_memory, demo_tasks, demo_vforks}
use mitosis_tests.SharedFork.{parent_word, heap_word, exec_child, second_vfork, finish}
use mitosis_tests.SharedFork.Verdict.{finish-finds}

-- the process when its first child has ended, with parent_var at 100, child_touched at 200, the block at 4096
abbrev touched : Process Demo
touched =
    start (record on {
      word = λ a. if a == 200 then 1 else if a == 100 then parent_word else heap_word;
    })

finish-finds_example :
    (is_failure (exited 0) ≡ false)
    × (touched.env.word 200 ≡ 1)
    × (touched.env.word 100 ≡ parent_word)
    × (touched.env.word 4096 ≡ heap_word)
unfolding finish second_vfork exec_child
finish-finds_example =
    finish-finds 100 200 (λ a w. refl) (λ a b w. refl) 4096 (exited 0) touched refl

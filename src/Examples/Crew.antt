-- ===== src/Examples/Crew.antt =====
-- test18.c on the small machine.
use mitosis_tests.Base.{ℕ, ◌≡◌, ◌↔◌, refl, true, List, [], ◌∷◌, ℤ, is_positive, arith}
use mitosis_tests.Machine.{get, start, status}
use mitosis_tests.Machine.Pool.{total}
use mitosis_tests.Machine.Pool.Runs.{crew-created}
use mitosis_tests.Sections.Worker.{num_threads, page_of, rank, advance}
use mitosis_tests.Sections.Program.{create, spawn, enough, all_clean, work, use_threads}
use mitosis_tests.Sections.Reference.{one_by_one}
use mitosis_tests.Sections.Refinement.{threads_refine}
use mitosis_tests.Sections.Verdict.{sections-passes_iff}
use mitosis_tests.Examples.Kernel.{off, on, memory, demo_memory, demo_replication, demo_threads}

-- thread 1, main, main, thread 0, and then as it comes
abbrev schedule : List ℕ
schedule = 2 ∷ 0 ∷ 0 ∷ 1 ∷ []

made : (work 4096 schedule (start on)).created ≡ true
unfolding create
made =
    crew-created (advance 4096) rank create spawn (λ s. ground arith) enough schedule 5 []
      (record { process = start on; threads_ready = 0; i = 0; test_passed = true })

threads_refine_example :
    let c = work 4096 schedule (start on) in
    (total rank c.threads ≡ 0)
    × (c.shared.threads_ready ≡ num_threads)
    × (all_clean c.threads ≡ true)
    × (c.shared.process.env.byte (page_of 4096 2 7)
        ≡ (one_by_one 4096 0 num_threads off).byte (page_of 4096 2 7))
threads_refine_example =
    threads_refine memory (λ option n b w. ground arith) (λ b w. refl) 4096 schedule (start on) off
      2 7 made (omega arith) (omega arith)

sections-passes_iff_example :
    let c = work 4096 schedule (start on) in
    (status (use_threads 4096 schedule) (start on) ≡ 0) ↔ (
      (c.created ≡ true)
      × ((m : ℤ) × (c.shared.process.trace ≡ get m ∷ []) × (is_positive m ≡ true)))
sections-passes_iff_example =
    sections-passes_iff memory 4096 (λ option n b w. ground arith) (λ b w. refl) schedule (start on)

-- ===== src/Sections/Verdict.antt =====
-- What the verdict of test18.c depends on.
use mitosis_tests.Base.{
  ℕ, zero, suc, ◌+◌, ◌≤◌, ◌<◌, ◌≡◌, refl, sym, ap, ◌∙◌, ◌↔◌, true, inl, inr, Bool-cases, List, ◌∷◌,
  ℤ, is_positive, arith,
}
use mitosis_tests.Machine.{
  Process, get, status, Replication, pr_get_pgtable_repl, Memory, Threads, Remembers,
}
use mitosis_tests.Sections.Worker.{num_threads, section_byte, page_of}
use mitosis_tests.Sections.Program.{
  all_clean, work, verify_sections, cleanup, run_threads, use_threads,
}
use mitosis_tests.Sections.Reference.{one_by_one-at}
use mitosis_tests.Sections.Refinement.{threads_refine}
use mitosis_tests.Sections.Asking.{work-asks}

module _ {W : Type 0} ⦃sys : Replication W⦄ ⦃mem : Memory W⦄ {byte word : W → ℕ → ℕ}
    (r : Remembers mem byte word) (shared_mem : ℕ) where
  verify_sections-true :
      (i n : ℕ) (w : W)
      → ((j : ℕ) → i ≤ j → j < i + n → byte w (page_of shared_mem j 0) ≡ section_byte j)
      → (verify_sections shared_mem i n w).0 ≡ true
  unfolding verify_sections
  verify_sections-true i zero w h = refl
  verify_sections-true i (suc n) w h =
      let rest = verify_sections-true (i + 1) n (mem.load (page_of shared_mem i 0) w).1 (λ j le lt.
        r.load_byte (page_of shared_mem i 0) (page_of shared_mem j 0) w
        ∙ h j (omega arith) (omega arith)) in
      ground (arith, r.load_value (page_of shared_mem i 0) w, h i (omega arith) (omega arith), rest)

  module _ ⦃threads : Threads W⦄
      (asked : (option n b : ℕ) (w : W) → byte (sys.prctl option n w).1 b ≡ byte w b)
      (created : (b : ℕ) (w : W) → byte (threads.pthread_create w).1 b ≡ byte w b) where
    -- No error of a thread or of main: the verdict is that of the look at the replication.
    all_good :
        (schedule : List ℕ) (p : Process W)
        → let c = work shared_mem schedule p in
          (status (use_threads shared_mem schedule) p ≡ 0)
          ↔ ((c.created ≡ true) × (c.shared.test_passed ≡ true))
    unfolding use_threads run_threads cleanup
    all_good schedule p =
        let c = work shared_mem schedule p in
        elim (Bool-cases c.created) [
          | inl made ↦
              let w = (sys.prctl pr_get_pgtable_repl 0 c.shared.process.env).1 in
              let refined = λ (j : ℕ) (lt : j < num_threads).
                threads_refine r asked created shared_mem schedule p p.env j 0 made lt
                  (omega arith) in
              let good = verify_sections-true 0 num_threads w (λ j le lt.
                asked pr_get_pgtable_repl 0 (page_of shared_mem j 0) c.shared.process.env
                ∙ (refined j lt).3
                ∙ one_by_one-at r shared_mem 0 num_threads j 0 p.env (omega arith) lt lt
                    (omega arith)) in
              let clean : all_clean c.threads ≡ true = (refined 0 (omega arith)).2 in
              ground (arith, made, good, clean)
          | inr refused ↦ ground (arith, refused)
        ]

    -- On memory that keeps what is written and that neither prctl() nor pthread_create() changes, and in
    -- whichever order the threads run: from the creation of its threads on, test18.c passes exactly if
    -- every thread could be created and the one GET that was called meanwhile answered a positive mask.
    pub sections-passes_iff :
        (schedule : List ℕ) (p : Process W)
        → let c = work shared_mem schedule p in
          (status (use_threads shared_mem schedule) p ≡ 0) ↔ (
            (c.created ≡ true)
            × ((m : ℤ) × (c.shared.process.trace ≡ get m ∷ p.trace) × (is_positive m ≡ true)))
    sections-passes_iff schedule p =
        let good = all_good schedule p in
        (
          λ h.
              let (made, passed) = good.0 h in
              let (m, shown, same) = work-asks shared_mem p schedule made in
              (made, (m, shown, sym same ∙ passed)),
          λ (made, (m, shown, positive)).
              let (n, shown', same) = work-asks shared_mem p schedule made in
              let e : n ≡ m = cc (shown, shown') in
              good.1 (made, same ∙ ap is_positive e ∙ positive),
        )

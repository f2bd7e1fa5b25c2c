-- ===== src/ThreadFork/Verdict.antt =====
-- What the verdict of test34.c means, in whichever order its threads run.
use mitosis_tests.Base.{
  ℕ, suc, ◌+◌, ◌≤◌, ◌≡◌, refl, Bool, true, false, ◌&&◌, List, [], ◌∷◌, inl, inr, Bool-cases, arith,
  is_neg, is_positive, to_int, if◌then◌else◌, ℤ,
}
use mitosis_tests.Machine.{
  Event, get, set, Process, status_of, status, calls, start, ok, Child, Tasks, Nodes, Replication,
  Memory, Threads, pr_set_pgtable_repl, pr_get_pgtable_repl,
}
use mitosis_tests.Machine.Pool.{total, needed, crew}
use mitosis_tests.Machine.Pool.Counts.{IsLocal, crew-counts}
use mitosis_tests.ThreadFork.Worker.{
  Worker, Shared, rank, advance, walk, check_replication, page_walk, starting, pinned, placed,
}
use mitosis_tests.ThreadFork.Program.{
  num_threads, enough, create, create_and_join, Results, run_threads, worker, child, after_fork,
  main,
}
use mitosis_tests.ThreadFork.Counters.{advance-Progresses}

-- An answer that is no error and is positive as an `int`.
abbrev pub is_shown : ℤ → Bool
is_shown a = if is_neg a then false else is_positive (to_int a)

abbrev pub all_shown : List Event → Bool
all_shown [] = true
all_shown (get a ∷ t) = is_shown a && all_shown t
all_shown (_ ∷ t) = all_shown t

abbrev pub gets : List Event → ℕ
gets [] = 0
gets (get a ∷ t) = suc (gets t)
gets (_ ∷ t) = gets t

-- 1 for a thread that has not asked for the mask yet
abbrev pending : Worker → ℕ
pending t = elim t.place [ starting ↦ 1 | pinned ↦ 1 | placed ↦ 1 | _ ↦ 0 ]

pending-zero : (l : List Worker) → total rank l ≡ 0 → total pending l ≡ 0
pending-zero [] h = refl
pending-zero (t ∷ l) h =
    let ended : pending t ≡ 0 = ground arith in omega (arith, ended, pending-zero l (omega arith))

module _ {W : Type 0} ⦃sys : Replication W⦄ ⦃mem : Memory W⦄ ⦃threads : Threads W⦄ where
  -- Where no thread has failed, every answer was shown, and `k` of them in the end.
  abbrev Asks : ℕ → ℕ → Shared W → Type 0
  Asks k n s = s.failures ≡ 0 → (all_shown s.process.trace ≡ true) × (gets s.process.trace + n ≡ k)

  page_walk-get :
      (i : ℕ) (p : Process W)
      → (all_shown (page_walk i p).1.trace ≡ all_shown p.trace)
        × (gets (page_walk i p).1.trace ≡ gets p.trace)
  unfolding page_walk
  page_walk-get i p = (ground arith, ground arith)

  advance-Asks : (k : ℕ) → IsLocal advance rank (λ t. Unit) pending (Asks k)
  unfolding advance walk check_replication
  advance-Asks k t s m running g h = (tt, λ none_failed. grind (arith, page_walk-get))

  -- The threads that a loop creates and joins: where all were created and none has failed, each has been
  -- shown a mask.
  run_threads-asks :
      (spawn : ℕ → Worker) (n : ℕ) (ks : List ℕ) (r : Results) (p : Process W)
      → ((left : ℕ) → pending (spawn left) ≡ 1)
      → needed rank spawn n ≤ enough
      → let c = create_and_join spawn n ks r p in
        c.created ≡ true
        → c.shared.failures ≡ 0
        → all_shown p.trace ≡ true
        → (all_shown c.shared.process.trace ≡ true)
          × (gets c.shared.process.trace ≡ gets p.trace + n)
  run_threads-asks spawn n ks r p fresh fuel made none_failed shown =
      let s : Shared W = record {
        process = p;
        parent_threads_ok = r.parent_threads_ok;
        failures = r.failures;
      } in
      let k : ℕ = gets p.trace + n in
      let c = crew advance rank create spawn enough ks n [] s in
      let joined =
        crew-counts advance rank (λ t. Unit) pending (Asks k) create spawn (λ left. left)
          advance-Progresses (advance-Asks k)
          (λ left m s' good h. (tt, λ e. ground (arith, fresh left))) enough ks n s fuel
          (λ e. (shown, refl)) made in
      let asked = joined.2 none_failed in
      (asked.0, omega (arith, asked.1, pending-zero c.threads joined.0))

  -- The same of `run_threads`, for four threads of a phase, with its answer.
  run_phase :
      (num_nodes phase : ℕ) (ks : List ℕ) (r : Results) (p : Process W)
      → all_shown p.trace ≡ true
      → let (answer, p') = run_threads (worker num_nodes phase) num_threads ks r p in
        (j : Bool × Results) × (answer ≡ ok j)
        × (j.0 ≡ true
            → j.1.failures ≡ 0
            → (all_shown p'.trace ≡ true) × (gets p'.trace ≡ gets p.trace + 4))
  unfolding run_threads worker
  run_phase num_nodes phase ks r p shown = (
    _,
    refl,
    λ made none_failed.
        run_threads-asks (worker num_nodes phase) num_threads ks r p (λ left. refl) (omega arith)
          made none_failed shown,
  )

  module _ ⦃tasks : Tasks W⦄ where
    after_fork-asks :
        (num_nodes : ℕ) (ks : List ℕ) (r : Results) (c : Child W) (p : Process W)
        → status (after_fork num_nodes ks r c) p ≡ 0
        → all_shown p.trace ≡ true
        → (all_shown (calls (after_fork num_nodes ks r c) p) ≡ true)
          × (gets (calls (after_fork num_nodes ks r c) p) ≡ gets p.trace + 5)
    unfolding after_fork check_replication
    after_fork-asks num_nodes ks r c p h shown =
        let (a, w) = sys.prctl pr_get_pgtable_repl 0 p.env in
        let p1 : Process W = record { env = w; trace = get a ∷ p.trace } in
        elim (Bool-cases (is_shown a)) [
          | inl good ↦
              let (j, e, asked) = run_phase num_nodes 1 ks r p1 (ground arith) in
              ground (arith, e, asked)
          | inr bad ↦ ground arith
        ]

    -- Whatever the system answers and in whichever orders its threads run, where there are two nodes or
    -- more, test34.c passes only if the parent and its eight threads have asked for the mask ten times and
    -- every answer was no error and positive.
    pub thread_fork-passes_only :
        ⦃nodes : Nodes W⦄ (before in_child after : List ℕ) (w : W)
        → status (main before in_child after) (start w) ≡ 0
        → (all_shown (calls (main before in_child after) (start w)) ≡ true)
          × (gets (calls (main before in_child after) (start w)) ≡ 10)
    unfolding main check_replication
    thread_fork-passes_only ⦃nodes⦄ before in_child after w h =
        let n = nodes.numa_num_configured_nodes w in
        let (a1, w1) = sys.prctl pr_set_pgtable_repl 1 w in
        let (a2, w2) = sys.prctl pr_get_pgtable_repl 0 w1 in
        let p : Process W = record { env = w2; trace = get a2 ∷ set 1 a1 ∷ [] } in
        let r : Results = record { parent_threads_ok = 0; failures = 0 } in
        elim (Bool-cases (is_shown a2)) [
          | inl good ↦
              let (j, e, asked) = run_phase n 0 before r p (ground arith) in
              let p2 = (run_threads (worker n 0) num_threads before r p).1 in
              let f = tasks.fork p2.env in
              let c = child in_child j.1 (start f.child) in
              let started : Child W = record {
                pid = f.pid;
                exit_status = status_of c.0;
                final = c.1;
              } in
              ground (
                arith,
                e,
                asked,
                after_fork-asks n after j.1 started (record p2 { env = f.parent }),
              )
          | inr bad ↦ ground arith
        ]

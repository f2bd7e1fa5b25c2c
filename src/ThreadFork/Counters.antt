-- ===== src/ThreadFork/Counters.antt =====
-- What the threads of test34.c leave in `results`, in whichever order they run.
use mitosis_tests.Base.{ℕ, ◌∷◌, ◌+◌, ◌≡◌, refl, true, List, [], arith}
use mitosis_tests.Machine.{Replication, Memory, Threads}
use mitosis_tests.Machine.Pool.{total, crew}
use mitosis_tests.Machine.Pool.Runs.{Progresses}
use mitosis_tests.Machine.Pool.Counts.{IsLocal, crew-counts}
use mitosis_tests.ThreadFork.Worker.{Worker, Shared, rank, advance, walk, finished}
use mitosis_tests.ThreadFork.Program.{num_threads, enough, create, worker}

-- 1 for a thread that has not ended
abbrev alive : Worker → ℕ
alive t = elim t.place [ finished ↦ 0 | _ ↦ 1 ]

alive-zero : (l : List Worker) → total rank l ≡ 0 → total alive l ≡ 0
alive-zero [] h = refl
alive-zero (t ∷ l) h =
    let ended : alive t ≡ 0 = ground arith in omega (arith, ended, alive-zero l (omega arith))

module _ {W : Type 0} ⦃sys : Replication W⦄ ⦃mem : Memory W⦄ ⦃threads : Threads W⦄ where
  pub advance-Progresses : Progresses (advance {W = W}) rank
  unfolding advance walk
  advance-Progresses t s running = ground arith

  abbrev Accounts : ℕ → ℕ → Shared W → Type 0
  Accounts k n s = s.failures + s.parent_threads_ok + n ≡ k

  advance-Accounts : (k : ℕ) → IsLocal advance rank (λ t. t.job.phase ≡ 1) alive (Accounts k)
  unfolding advance walk
  advance-Accounts k t s m running phase h = (ground arith, ground arith)

  -- Whatever the system answers and in whichever order the threads after the fork run, if each could be
  -- created, then all have ended when they were joined, and the sum of the two counters has grown by one
  -- for each of them.
  pub threads-account :
      (num_nodes : ℕ) (schedule : List ℕ) (s : Shared W)
      → let c = crew advance rank create (worker num_nodes 1) enough schedule num_threads [] s in
        c.created ≡ true
        → (total rank c.threads ≡ 0)
          × (c.shared.failures + c.shared.parent_threads_ok
              ≡ s.failures + s.parent_threads_ok + num_threads)
  unfolding worker
  threads-account num_nodes schedule s made =
      let k : ℕ = s.failures + s.parent_threads_ok + num_threads in
      let c = crew advance rank create (worker num_nodes 1) enough schedule num_threads [] s in
      let joined =
        crew-counts advance rank (λ t. t.job.phase ≡ 1) alive (Accounts k) create
          (worker num_nodes 1) (λ left. left) advance-Progresses (advance-Accounts k)
          (λ left m s' good h. (refl, omega arith)) enough schedule num_threads s (omega arith) refl
          made in
      (joined.0, omega (arith, joined.2, alive-zero c.threads joined.0))

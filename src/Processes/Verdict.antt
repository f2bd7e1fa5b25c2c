-- ===== src/Processes/Verdict.antt =====
-- What the verdict of test21.c says of its workers.
use mitosis_tests.Base.{
  ℕ, zero, suc, ◌+◌, ◌≡◌, refl, true, false, ◌&&◌, Bool, List, [], ◌∷◌, ◌++◌, ℤ, some, arith, ◌==◌,
}
use mitosis_tests.Machine.{
  Process, Child, Outcome, ok, ended, status, status_of, start, exited, Replication, Memory, Tasks,
  Reaping,
}
use mitosis_tests.Processes.{num_processes, worker_process, wait_workers, fork_workers, main}

module _ {W : Type 0} where
  -- Every worker ends with status 0.
  abbrev pub all_zero : List (Child W) → Bool
  all_zero [] = true
  all_zero (c ∷ l) = (c.exit_status == 0) && all_zero l

  abbrev pub count : List (Child W) → ℕ
  count [] = 0
  count (c ∷ l) = suc (count l)

  count-append : (l : List (Child W)) (c : Child W) → count (l ++ (c ∷ [])) ≡ suc (count l)
  count-append [] c = refl
  count-append (d ∷ l) c = omega (arith, count-append l c)

  -- The forks gave `n` workers, each of which ends with status 0.
  abbrev pub IsComplete : ℕ → Outcome (List (Child W)) → Type 0
  IsComplete n (ok l) = (count l ≡ n) × (all_zero l ≡ true)
  IsComplete n (ended k) = ⊥

  abbrev HasCount : ℕ → Outcome (List (Child W)) → Type 0
  HasCount n (ok l) = count l ≡ n
  HasCount n (ended k) = k ≡ 1

  abbrev IsTold : List (Child W) → Outcome Bool → Type 0
  IsTold l (ok true) = all_zero l ≡ true
  IsTold l (ok false) = Unit
  IsTold l (ended n) = ⊥

  module _ ⦃tasks : Tasks W⦄ ⦃reaping : Reaping W⦄ where
    wait_workers_lem :
        ((pid : ℤ) (n : ℕ) (v w : W) → (reaping.reap pid (some (n, v)) w).status ≡ exited n)
        → (l : List (Child W)) (s : Process W) → IsTold l (wait_workers l s).0
    unfolding wait_workers
    wait_workers_lem reports [] s = refl
    wait_workers_lem reports (c ∷ l) s =
        let w = (reaping.reap c.pid (some (c.exit_status, c.final.env)) s.env).world in
        ground (
          arith,
          reports c.pid c.exit_status c.final.env s.env,
          wait_workers_lem reports l (record s { env = w }),
        )

    module _ ⦃mem : Memory W⦄ ⦃sys : Replication W⦄ where
      fork_workers-HasCount :
          (i n : ℕ) (l : List (Child W)) (s : Process W)
          → HasCount (count l + n) (fork_workers i n l s).0
      unfolding fork_workers
      fork_workers-HasCount i zero l s = omega arith
      fork_workers-HasCount i (suc n) l s =
          let f = tasks.fork s.env in
          let c = worker_process i (start f.child) in
          let started : Child W = record {
            pid = f.pid;
            exit_status = status_of c.0;
            final = c.1;
          } in
          let rested : Process W = record s { env = tasks.usleep 10000 f.parent } in
          ground (
            arith,
            count-append l started,
            fork_workers-HasCount (i + 1) n (l ++ (started ∷ [])) rested,
          )

      -- Where waitpid() reports the status with which a child has ended, whatever else the system answers:
      -- test21.c passes only if all four workers were created and each ended with status 0.
      pub processes-passes_only :
          ((pid : ℤ) (n : ℕ) (v w : W) → (reaping.reap pid (some (n, v)) w).status ≡ exited n)
          → (w : W) → status main (start w) ≡ 0
          → IsComplete 4 (fork_workers 0 num_processes [] (start w)).0
      unfolding main
      processes-passes_only reports w h =
          let (r, s) = fork_workers 0 num_processes [] (start w) in
          grind (arith, fork_workers-HasCount 0 4 [] (start w), wait_workers_lem reports)

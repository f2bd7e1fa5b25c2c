-- ===== src/ForkStress/Rounds.antt =====
-- The state of test35.c, and the rounds of the loops of its `main`.
use mitosis_tests.Base.{
  ℕ, ◌+◌, ◌-◌, true, false, not, ◌&&◌, Option, none, some, List, ◌∷◌, ◌==◌, ltb, is_neg,
  is_positive, if◌then◌else◌, ℤ, pos,
}
use mitosis_tests.Machine.{
  Process, ok, ended, Replication, Memory, fork, is_failure, Tasks, Reaping, Threads,
}
use mitosis_tests.ForkStress.Calls.{check_replication, child_process}
use mitosis_tests.ForkStress.Worker.{Worker, starting, choosing, Shared}

abbrev pub num_rapid_forks : ℕ
num_rapid_forks = 15

abbrev pub num_fault_threads : ℕ
num_fault_threads = 4

abbrev pub num_migration_threads : ℕ
num_migration_threads = 4

-- Where `main` is. In `creating n` it has `n` threads to create; the loops of the forks and of the waits
-- have the counter `i` and the rounds that are left.
pub data MainPlace : Type 0 where
  creating : ℕ → MainPlace
  warming : MainPlace
  forking resting checking : (i left : ℕ) → MainPlace
  cooling disabling verifying stopping joining : MainPlace
  waiting : (i left : ℕ) → MainPlace
  over : ℕ → MainPlace

-- An entry of `child_pids`, and the child that it names, if there is one: its status and last world.
pub record Slot (W : Type 0) : Type 0 where
  pub pid : ℤ
  pub child : Option (ℕ × W)

pub record System (W : Type 0) : Type 0 where
  pub shared : Shared W
  pub threads : List Worker
  pub place : MainPlace
  pub child_pids : ℕ → Slot W
  pub successful_forks : ℕ
  pub failed_forks : ℕ
  pub children_ok : ℕ
  pub children_failed : ℕ

-- The thread that is created when `left` more are to come after it.
unfoldable pub worker : (num_nodes left : ℕ) → Worker
worker num_nodes left =
    let index = num_fault_threads + num_migration_threads - 1 - left in
    if ltb index num_fault_threads
    then record { index = index; thread_id = index; num_nodes = num_nodes; place = starting }
    else record {
      index = index;
      thread_id = index - num_fault_threads;
      num_nodes = num_nodes;
      place = choosing 0;
    }

module _ {W : Type 0} where
  -- `child_pids[i] = ...;`
  abbrev pub put : ℕ → Slot W → (ℕ → Slot W) → ℕ → Slot W
  put i slot pids k = if k == i then slot else pids k

  abbrev pub at_place : MainPlace → Process W → System W → System W
  at_place place p s = record s { place = place; shared = record s.shared { process = p } }

  -- `all_ok`
  unfoldable pub verdict : System W → ℕ
  verdict s =
      if (s.failed_forks == 0)
        && (s.shared.thread_failures == 0)
        && (s.children_failed == 0)
        && (s.successful_forks == num_rapid_forks)
      then 0
      else 1

  unfoldable pub create_thread : ⦃threads : Threads W⦄ → (num_nodes left : ℕ) → System W → System W
  create_thread ⦃threads⦄ num_nodes left s =
      let p = s.shared.process in
      let (good, w) = threads.pthread_create p.env in
      let s' = at_place (creating left) (record p { env = w }) s in
      elim good [
        | true ↦ record s' { threads = worker num_nodes left ∷ s.threads }
        | false ↦ record s' { place = over 1 }
      ]

  -- A round of the loop of the forks, up to the check of the parent's replication.
  unfoldable pub fork_child :
      ⦃sys : Replication W⦄ ⦃mem : Memory W⦄ ⦃tasks : Tasks W⦄ → (i left : ℕ) → System W → System W
  fork_child ⦃sys⦄ ⦃mem⦄ ⦃tasks⦄ i left s =
      let (started, p) = fork child_process s.shared.process in
      elim started [
        | ok c ↦ elim (is_neg c.pid) [
          | true ↦ record (at_place (forking (i + 1) left) p s) {
            failed_forks = s.failed_forks + 1;
            child_pids = put i (record { pid = pos 0; child = none }) s.child_pids;
          }
          | false ↦ record (at_place (resting i left) p s) {
            successful_forks = s.successful_forks + 1;
            child_pids =
                put i (record { pid = c.pid; child = some (c.exit_status, c.final.env) })
                  s.child_pids;
          }
        ]
        | ended n ↦ at_place (over n) p s
      ]

  -- "Verify parent replication still enabled": where it is not, the flag is cleared and the loop is left.
  unfoldable pub check_parent : ⦃sys : Replication W⦄ → (i left : ℕ) → System W → System W
  check_parent i left s =
      let (status, p) = check_replication none s.shared.process in
      let s' = at_place cooling p s in
      elim status [
        | ok a ↦ elim (is_positive a) [
          | true ↦ at_place (forking (i + 1) left) p s
          | false ↦ record s' { shared = record s'.shared { keep_running = false } }
        ]
        | ended n ↦ at_place (over n) p s
      ]

  -- A round of the loop that waits for the children.
  unfoldable pub wait_child : ⦃reaping : Reaping W⦄ → (i left : ℕ) → System W → System W
  wait_child ⦃reaping⦄ i left s =
      let slot = s.child_pids i in
      let p = s.shared.process in
      let r = reaping.reap slot.pid slot.child p.env in
      let s' = at_place (waiting (i + 1) left) (record p { env = r.world }) s in
      elim (is_positive slot.pid) [
        | true ↦ elim (is_positive r.result && not (is_failure r.status)) [
          | true ↦ record s' { children_ok = s.children_ok + 1 }
          | false ↦ record s' { children_failed = s.children_failed + 1 }
        ]
        | false ↦ at_place (waiting (i + 1) left) p s
      ]

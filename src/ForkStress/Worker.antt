-- ===== src/ForkStress/Worker.antt =====
-- `fault_thread` and `migration_thread` of test35.c, as steps between which other threads may run.
use mitosis_tests.Base.{
  ℕ, zero, suc, ◌+◌, ◌*◌, ◌%◌, Bool, true, false, ◌&&◌, none, ◌==◌, ltb, is_neg,
}
use mitosis_tests.Machine.{
  Process, ok, ended, Program, pure, ◌>>=◌, ◌>>◌, either, Replication, malloc, free, effect, Memory,
  Tasks, Threads, Affinity, actual_node, is_node,
}
use mitosis_tests.ForkStress.Calls.{check_replication, pin_to_node}

abbrev pub fault_iterations : ℕ
fault_iterations = 5000

abbrev pub migration_cycles : ℕ
migration_cycles = 100

-- What a thread does next. In `fault_thread`, with the number of faults so far: the test of its loop, the
-- body up to `faults++`, the check of every 500th round, the end. In `migration_thread`, with `cycle`: the
-- test of its loop, the migration, the check of the node, the work, the count.
pub data Place : Type 0 where
  starting : Place
  testing touching checking adding : ℕ → Place
  choosing migrating placed working counting : ℕ → Place
  finished : Place

-- A thread with its thread_data_t; `index` is its place in the array.
pub record Worker : Type 0 where
  pub index : ℕ
  pub thread_id : ℕ
  pub num_nodes : ℕ
  pub place : Place

-- What the threads share: the process, the flag, and the counters of `stats` that they change.
pub record Shared (W : Type 0) : Type 0 where
  pub process : Process W
  pub keep_running : Bool
  pub thread_failures : ℕ
  pub migrations_completed : ℕ
  pub page_faults_completed : ℕ

-- the steps left at most once the flag is cleared
abbrev pub rank : Worker → ℕ
rank t = elim t.place [
  | finished ↦ 0
  | adding n ↦ 1
  | testing n ↦ 2
  | checking n ↦ 3
  | starting ↦ 3
  | touching n ↦ 4
  | choosing n ↦ 1
  | counting n ↦ 2
  | working n ↦ 3
  | placed n ↦ 4
  | migrating n ↦ 5
]

module _ {W : Type 0} where
  abbrev leaves : Worker → Place → Process W → Shared W → Worker × Shared W
  leaves t place p s = (record t { place = place }, record s { process = p })

  -- `atomic_fetch_add(&stats.thread_failures, 1); return NULL;`
  abbrev pub failed : Worker → Process W → Shared W → Worker × Shared W
  failed t p s = (
    record t { place = finished },
    record s { process = p; thread_failures = s.thread_failures + 1 },
  )

  module _ ⦃mem : Memory W⦄ where
    -- `for (...; i < size; i += step) mem[i] = ...;` and `... sum += mem[i];`, `n` rounds
    unfoldable pub touch : (ℕ → ℕ) → (step a i n : ℕ) → W → W
    touch value step a i zero w = w
    touch value step a i (suc n) w =
        touch value step a (i + step) n (mem.store (a + i) (value i % 256) w)

    unfoldable pub sum_up : (step a i n : ℕ) → W → W
    sum_up step a i zero w = w
    sum_up step a i (suc n) w = sum_up step a (i + step) n (mem.load (a + i) w).1

    -- The body of a fault thread up to `faults++`; the answer tells whether malloc gave memory.
    unfoldable pub fault_pages : ℕ → Program W Bool
    fault_pages faults = do
      found ← malloc (4096 * (1 + faults % 16))
      either found (pure false) (λ a. do
        effect (touch (λ i. faults + i) 4096 a 0 (1 + faults % 16))
        effect (sum_up 4096 a 0 (1 + faults % 16))
        free a
        pure true)

    -- "Do some work to trigger page table walks on this node"
    unfoldable pub walk_pages : ℕ → Program W (Unit {0})
    walk_pages cycle = do
      found ← malloc 8192
      either found (pure tt)
          (λ a. do effect (touch (λ i. cycle) 512 a 0 16); effect (sum_up 512 a 0 16); free a)

    module _ ⦃sys : Replication W⦄ ⦃tasks : Tasks W⦄ ⦃threads : Threads W⦄ ⦃cpus : Affinity W⦄ where
      unfoldable pub fault_thread : Worker → Shared W → Worker × Shared W
      fault_thread t s =
          let p = s.process in
          let (pin, w1) = pin_to_node t.index (t.thread_id % t.num_nodes) p.env in
          elim t.place [
            | starting ↦ elim (is_neg pin) [
              | true ↦ failed t (record p { env = w1 }) s
              | false ↦ leaves t (testing 0) (record p { env = w1 }) s
            ]
            | testing n ↦ elim (s.keep_running && ltb n fault_iterations) [
              | true ↦ leaves t (touching n) p s
              | false ↦ leaves t (adding n) p s
            ]
            | touching n ↦
                let (got, p') = fault_pages n p in
                elim got [
                  | ok true ↦ elim ((n + 1) % 500 == 0) [
                    | true ↦ leaves t (checking (n + 1)) p' s
                    | false ↦ leaves t (testing (n + 1)) p' s
                  ]
                  | _ ↦ leaves t (testing n) p' s
                ]
            | checking n ↦
                let (status, p') = check_replication none p in
                elim status [
                  | ok a ↦ elim (is_neg a) [
                    | true ↦ failed t p' s
                    | false ↦ leaves t (testing n) p' s
                  ]
                  | ended _ ↦ (t, s)
                ]
            | adding n ↦ (
              record t { place = finished },
              record s { page_faults_completed = s.page_faults_completed + n },
            )
            | _ ↦ (t, s)
          ]

      unfoldable pub migration_thread : Worker → Shared W → Worker × Shared W
      migration_thread t s =
          let p = s.process in
          elim t.place [
            | choosing n ↦ elim (ltb n migration_cycles && s.keep_running) [
              | true ↦ leaves t (migrating n) p s
              | false ↦ leaves t finished p s
            ]
            | migrating n ↦
                let (pin, w) = pin_to_node t.index (n % t.num_nodes) p.env in
                elim (is_neg pin) [
                  | true ↦ failed t (record p { env = w }) s
                  | false ↦ leaves t (placed n) (record p { env = w }) s
                ]
            | placed n ↦
                let (node, w) = actual_node t.index p.env in
                elim (is_node node (n % t.num_nodes)) [
                  | true ↦ leaves t (working n) (record p { env = w }) s
                  | false ↦ failed t (record p { env = w }) s
                ]
            | working n ↦ leaves t (counting n) (walk_pages n p).1 s
            | counting n ↦ (
              record t { place = choosing (n + 1) },
              record s {
                process = record p { env = tasks.usleep 1000 p.env };
                migrations_completed = s.migrations_completed + 1;
              },
            )
            | _ ↦ (t, s)
          ]

      -- A step of a thread: the places of the two functions are apart.
      unfoldable pub advance : Worker → Shared W → Worker × Shared W
      advance t s = elim t.place [
        | starting ↦ fault_thread t s
        | testing n ↦ fault_thread t s
        | touching n ↦ fault_thread t s
        | checking n ↦ fault_thread t s
        | adding n ↦ fault_thread t s
        | _ ↦ migration_thread t s
      ]

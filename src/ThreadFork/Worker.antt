-- ===== src/ThreadFork/Worker.antt =====
-- `thread_worker` of test34.c, as the steps of a thread between which other threads may run.
use mitosis_tests.Base.{
  ℕ, zero, suc, ◌+◌, ◌-◌, ◌/◌, ◌%◌, true, false, ◌∷◌, ◌==◌, if◌then◌else◌, is_neg, is_positive,
  to_int, ℤ, pos, negsuc,
}
use mitosis_tests.Machine.{
  get, Process, Quiet, Program, pure, quietly, ◌>>=◌, ◌>>◌, either, pr_get_pgtable_repl,
  Replication, malloc, free, effect, Memory, Threads, actual_node, is_node,
}

abbrev pub iterations : ℕ
iterations = 1000

-- thread_data_t
pub record Job : Type 0 where
  pub thread_id : ℕ
  pub target_node : ℕ
  pub phase : ℕ

-- What a thread does next. In `walking n` it has `n` rounds of `trigger_page_walks` left.
pub data Place : Type 0 where
  starting pinned placed : Place
  walking : ℕ → Place
  counting finished : Place

pub record Worker : Type 0 where
  pub job : Job
  pub place : Place

-- The process with its `results`. A step adds to a counter as a whole, as atomic_fetch_add does.
pub record Shared (W : Type 0) : Type 0 where
  pub process : Process W
  pub parent_threads_ok : ℕ
  pub failures : ℕ

-- the steps left at most
abbrev pub rank : Worker → ℕ
rank t = elim t.place [
  | starting ↦ iterations + 5
  | pinned ↦ iterations + 4
  | placed ↦ iterations + 3
  | walking n ↦ n + 2
  | counting ↦ 1
  | finished ↦ 0
]

abbrev moved : Worker → Place → Worker
moved t p = record t { place = p }

module _ {W : Type 0} where
  -- `atomic_fetch_add(&results.failures, 1); return NULL;`
  abbrev failed : Worker → Process W → Shared W → Worker × Shared W
  failed t p s =
      (record t { place = finished }, record s { process = p; failures = s.failures + 1 })

  module _ ⦃threads : Threads W⦄ where
    unfoldable pub pin_to_node : ℕ → ℕ → Quiet W ℤ
    pin_to_node thread node w =
        let (mask, w1) = threads.numa_allocate_nodemask w in
        let (ret, w2) =
          threads.numa_run_on_node_mask thread mask (threads.numa_bitmask_setbit mask node w1) in
        (if is_neg ret then negsuc 0 else pos 0, threads.numa_free_nodemask mask w2)

  module _ ⦃sys : Replication W⦄ where
    -- -1, or the mask as an `int`
    unfoldable pub check_replication : Process W → ℤ × Process W
    check_replication p =
        let (repl_status, w) = sys.prctl pr_get_pgtable_repl 0 p.env in
        (
          if is_neg repl_status then negsuc 0 else to_int repl_status,
          record { env = w; trace = get repl_status ∷ p.trace },
        )

  module _ ⦃mem : Memory W⦄ where
    -- a round of `trigger_page_walks`
    unfoldable pub page_walk : ℕ → Program W (Unit {0})
    page_walk i = do
      found ← malloc 4096
      either found (pure tt) (λ a. do
        effect (mem.store a (i % 256))
        effect (mem.store (a + 4095) (i / 256 % 256))
        quietly (mem.load a)
        quietly (mem.load (a + 4095))
        free a)

    module _ ⦃sys : Replication W⦄ ⦃threads : Threads W⦄ where
      -- the next round, or the end of the rounds
      unfoldable pub walk : Worker → ℕ → Shared W → Worker × Shared W
      walk t zero s = (moved t counting, s)
      walk t (suc n) s =
          (moved t (walking n), record s { process = (page_walk (iterations - suc n) s.process).1 })

      -- A failure before the rounds ends the thread; an answer of 0 or less is a failure.
      unfoldable pub advance : Worker → Shared W → Worker × Shared W
      advance t s =
          let p = s.process in
          let (pin, w1) = pin_to_node t.job.thread_id t.job.target_node p.env in
          let (node, w2) = actual_node t.job.thread_id p.env in
          let (repl_status, p3) = check_replication p in
          elim t.place [
            | starting ↦ elim (is_neg pin) [
              | true ↦ failed t (record p { env = w1 }) s
              | false ↦ (moved t pinned, record s { process = record p { env = w1 } })
            ]
            | pinned ↦ elim (is_node node t.job.target_node) [
              | true ↦ (moved t placed, record s { process = record p { env = w2 } })
              | false ↦ failed t (record p { env = w2 }) s
            ]
            | placed ↦ elim (is_positive repl_status) [
              | true ↦ (moved t (walking iterations), record s { process = p3 })
              | false ↦ failed t p3 s
            ]
            | walking n ↦ walk t n s
            | counting ↦ elim (t.job.phase == 1) [
              | true ↦ (moved t finished, record s { parent_threads_ok = s.parent_threads_ok + 1 })
              | false ↦ (moved t finished, s)
            ]
            | finished ↦ (t, s)
          ]

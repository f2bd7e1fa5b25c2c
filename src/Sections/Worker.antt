-- ===== src/Sections/Worker.antt =====
-- `thread_func` of test18.c, one access to memory at a time.
use mitosis_tests.Base.{
  ℕ, zero, suc, ◌+◌, ◌*◌, ◌/◌, Bool, ◌&&◌, ◌==◌, if◌then◌else◌, ◌∷◌, is_positive,
}
use mitosis_tests.Machine.{Process, get, pr_get_pgtable_repl, Replication, Memory}

abbrev pub test_size : ℕ
test_size = 4 * 1024 * 1024

abbrev pub num_threads : ℕ
num_threads = 4

abbrev pub section_size : ℕ
section_size = test_size / num_threads

-- `0xA0 + thread_id`
abbrev pub section_byte : ℕ → ℕ
section_byte id = 0xA0 + id

-- the address of page `i` of the section of a thread
abbrev pub page_of : ℕ → ℕ → ℕ → ℕ
page_of shared_mem id i = shared_mem + id * section_size + i * 4096

-- Where a thread stands. In its loops `i` is the next page and `n` the number of pages that are left;
-- `spinning` is the loop in which it waits for `threads_can_exit`. Main itself, between the creation of
-- the last thread and its wait for `threads_ready`, is one more thread, which asks for the replication
-- and then is `awaiting`.
pub data Place : Type 0 where
  writing verifying : (i n : ℕ) → Place
  counting spinning asking awaiting : Place

pub record Worker : Type 0 where
  pub thread_id : ℕ
  pub place : Place
  pub errors : ℕ

-- What the threads share. `i` is main's loop variable; `test_passed` is cleared where the replication
-- is found off.
pub record Shared (W : Type 0) : Type 0 where
  pub process : Process W
  pub threads_ready : ℕ
  pub i : ℕ
  pub test_passed : Bool

-- the steps that a thread can make before it spins
unfoldable pub rank_of : Place → ℕ
rank_of (writing i n) = n + 259
rank_of (verifying i n) = n + 2
rank_of counting = 1
rank_of spinning = 0
rank_of asking = 1
rank_of awaiting = 0

abbrev pub rank : Worker → ℕ
rank t = rank_of t.place

abbrev pub go_to : Worker → Place → Worker
go_to t p = record t { place = p }

module _ {W : Type 0} ⦃sys : Replication W⦄ ⦃mem : Memory W⦄ where
  abbrev pub with_env : Shared W → W → Shared W
  with_env s w = record s { process = record s.process { env = w } }

  -- `if (shared_mem[i] != (unsigned char)(0xA0 + thread_id)) errors++;`
  unfoldable pub verify : ℕ → ℕ → ℕ → Worker → Shared W → Worker × Shared W
  verify shared_mem i n t s =
      let (x, w) = mem.load (page_of shared_mem t.thread_id i) s.process.env in
      (
        record t {
          place = verifying (i + 1) n;
          errors = if x == section_byte t.thread_id then t.errors else t.errors + 1;
        },
        with_env s w,
      )

  -- `ret = prctl(PR_GET_PGTABLE_REPL, 0, 0, 0, 0);` and the test of `ret`
  unfoldable pub ask : Worker → Shared W → Worker × Shared W
  ask t s =
      let (ret, w) = sys.prctl pr_get_pgtable_repl 0 s.process.env in
      (
        go_to t awaiting,
        record s {
          process = record { env = w; trace = get ret ∷ s.process.trace };
          test_passed = s.test_passed && is_positive ret;
        },
      )

  -- One step of a thread. A thread that spins makes none.
  unfoldable pub advance : ℕ → Worker → Shared W → Worker × Shared W
  unfolding verify ask
  advance shared_mem t s = elim t.place [
    | writing i zero ↦ (go_to t (verifying 0 256), s)
    | writing i (suc n) ↦ (
      go_to t (writing (i + 1) n),
      with_env s
          (mem.store (page_of shared_mem t.thread_id i) (section_byte t.thread_id) s.process.env),
    )
    | verifying i zero ↦ (go_to t counting, s)
    | verifying i (suc n) ↦ verify shared_mem i n t s
    | counting ↦ (go_to t spinning, record s { threads_ready = s.threads_ready + 1 })
    | spinning ↦ (t, s)
    | asking ↦ ask t s
    | awaiting ↦ (t, s)
  ]

-- ===== src/Faulting.antt =====
-- test24.c: missing pages that a thread of the process provides through userfaultfd.
pub mod Hygiene
pub mod Providing
use mitosis_tests.Base.{
  ℕ, zero, suc, ◌+◌, ◌-◌, ◌*◌, ◌/◌, ◌%◌, ◌^◌, Bool, true, false, not, ◌&&◌, List, [], ◌∷◌, ◌==◌,
  if◌then◌else◌, is_neg, is_nonzero,
}
use mitosis_tests.Machine.{
  Program, Quiet, pure, exit, quietly, ◌>>=◌, ◌>>◌, when, require, either, choose, set_repl,
  get_repl, Replication, malloc, free, mmap, munmap, effect, Memory, read_write, private_anonymous,
  Tasks, Threads, Message, again, read_failed, partial, unexpected, page_fault, Poll,
  poll_interrupted, poll_failed, timeout, readable, Userfaults, userfaultfd, close_faults,
}
use Prim.Native.Nat.{bit_or}

abbrev pub page_size : ℕ
page_size = 4096

abbrev pub num_pages : ℕ
num_pages = 8

-- `0xDEAD0000 | i`, and `0xBEEF0000 | i`
abbrev pub fault_word : ℕ → ℕ
fault_word i = bit_or 0xDEAD0000 i

abbrev pub written_word : ℕ → ℕ
written_word i = bit_or 0xBEEF0000 i

-- `(addr - (unsigned long)fault_region) / PAGE_SIZE`, as an int
abbrev pub page_number : ℕ → ℕ → ℕ
page_number addr region = (addr + 2 ^ 64 - region) % 2 ^ 64 / page_size % 2 ^ 32

module _ {W : Type 0} ⦃mem : Memory W⦄ ⦃faults : Userfaults W⦄ (uffd fault_region page : ℕ) where
  -- The page of the handler as it is for a fault at an address, and the page that it then provides.
  unfoldable pub prepare : ℕ → W → W
  prepare addr w =
      let page_num = page_number addr fault_region in
      mem.store32 page (fault_word page_num) (mem.memset page ((0xAA + page_num) % 256) page_size w)

  unfoldable pub provide : ℕ → W → W
  provide addr w =
      (faults.uffdio_copy uffd (addr - addr % page_size) page page_size (prepare addr w)).1

  -- a round of the loop of the handler, and whether the loop goes on
  unfoldable pub round : Poll → Quiet W Bool
  round poll_interrupted w = (true, w)
  round poll_failed w = (false, w)
  round timeout w = (true, w)
  round (readable again) w = (true, w)
  round (readable read_failed) w = (false, w)
  round (readable partial) w = (true, w)
  round (readable unexpected) w = (true, w)
  round (readable (page_fault addr)) w = (true, provide addr w)

  -- The rounds that the handler makes, and whether it is still in its loop.
  unfoldable pub serve : List Poll → Bool → Quiet W Bool
  serve [] running w = (running, w)
  serve (poll ∷ polls) running w =
      let (running', w') = round poll w in
      let rest = serve polls running' w' in if running then rest else (false, w)

  -- the handler, while the access to an address waits
  unfoldable pub wait : ℕ → Bool → Quiet W Bool
  wait a running w = let (polls, w') = faults.served a w in serve polls running w'

  -- a loop over the first word of each of `n` pages from page `i` on, which looks for `word`: whether the
  -- handler is still in its loop, and `pass`
  unfoldable pub check_pages : (ℕ → ℕ) → ℕ → ℕ → Bool → Bool → Quiet W (Bool × Bool)
  check_pages word i zero running pass w = ((running, pass), w)
  check_pages word i (suc n) running pass w =
      let a = fault_region + i * page_size in
      let (running', w1) = wait a running w in
      let (val, w2) = mem.load32 a w1 in
      check_pages word (i + 1) n running' (pass && (val == word i)) w2

  -- "Write to pages"
  unfoldable pub write_pages : ℕ → ℕ → Bool → Quiet W Bool
  write_pages i zero running w = (running, w)
  write_pages i (suc n) running w =
      let a = fault_region + i * page_size in
      let (running', w1) = wait a running w in
      write_pages (i + 1) n running' (mem.store32 a (written_word i) w1)

  module _ ⦃sys : Replication W⦄ where
    -- the branch in which replication is on
    unfoldable pub replicate : Bool → Bool → Program W (Bool × Bool)
    replicate running pass = do
      get_repl
      (running, pass) ← quietly (check_pages fault_word 0 num_pages running pass)
      ret ← quietly (mem.discard fault_region (page_size * (num_pages / 2)))
      let pass = pass && not (is_nonzero ret)
      (running, pass) ← quietly (check_pages fault_word 0 (num_pages / 2) running pass)
      running ← quietly (write_pages 0 num_pages running)
      (running, pass) ← quietly (check_pages written_word 0 num_pages running pass)
      ret ← set_repl 0
      pure (running, pass && not (is_nonzero ret))

    -- from the join on, with the `free` of the handler
    unfoldable pub finish : Bool → Bool → Program W (Unit {0})
    finish running pass = do
      quietly (λ w. let (polls, w') = faults.joined w in serve polls running w')
      free page
      munmap fault_region (page_size * num_pages)
      close_faults uffd
      exit (if pass then 0 else 1)

    -- from the first accesses on
    unfoldable pub use_pages : Program W (Unit {0})
    use_pages = do
      (running, pass) ← quietly (check_pages fault_word 0 num_pages true true)
      ret ← set_repl 1
      (running, pass) ← choose (is_nonzero ret) (pure (running, false)) (replicate running pass)
      finish running pass

module _ {W : Type 0} ⦃mem : Memory W⦄ ⦃faults : Userfaults W⦄ ⦃tasks : Tasks W⦄ where
  -- `n` rounds of `while (!handler_ready) { usleep(1000); }`
  unfoldable pub await_handler : ℕ → W → W
  await_handler zero w = w
  await_handler (suc n) w = await_handler n (tasks.usleep 1000 w)

  module _ ⦃sys : Replication W⦄ ⦃threads : Threads W⦄ where
    -- The waiting loop makes `rounds` rounds. Where the handler gets no page, it does not set
    -- `handler_ready`, and the loop has no end: such a run has no status.
    unfoldable pub main : ℕ → Program W (Unit {0})
    main rounds = do
      found ← userfaultfd
      uffd ← require found (exit 0)
      ret ← quietly (faults.uffdio_api uffd)
      when (is_neg ret) (do close_faults uffd; exit 1)
      found ← mmap private_anonymous (page_size * num_pages) read_write
      fault_region ← require found (do close_faults uffd; exit 1)
      ret ← quietly (faults.uffdio_register uffd fault_region (page_size * num_pages))
      when (is_neg ret) do munmap fault_region (page_size * num_pages); close_faults uffd; exit 1
      created ← quietly threads.pthread_create
      when (not created) do munmap fault_region (page_size * num_pages); close_faults uffd; exit 1
      found ← malloc page_size
      either found (pure tt)
          (λ page. do effect (await_handler rounds); use_pages uffd fault_region page)

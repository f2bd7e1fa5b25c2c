-- ===== src/Machine/Laws.antt =====
-- What the tests take for granted of a kernel with Mitosis: the documented behaviour of the calls,
-- as hypotheses. Nothing here is assumed of the kernel unless a theorem names it.
use mitosis_tests.Base.{ℕ, ◌+◌, ◌^◌, ◌≤◌, ◌<◌, ◌≡◌, ◌≢◌, true, some, is_positive, ℤ, pos}
use mitosis_tests.Machine.Prctl.{pr_set_pgtable_repl, pr_get_pgtable_repl, Replication}
use mitosis_tests.Machine.Storage.{Prot, Memory, fixed, fixed_noreplace}
use mitosis_tests.Machine.Forking.{Tasks, exited}

-- The mask of the nodes that hold a replica. Switching on answers 0 and leaves a nonempty mask,
-- switching off answers 0 and leaves the empty mask, and asking shows the mask and keeps it.
pub record Switches {W : Type 0} (sys : Replication W) (mask : W → ℕ) : Type 0 where
  pub on_answer : (w : W) → (sys.prctl pr_set_pgtable_repl 1 w).0 ≡ pos 0
  pub on_mask : (w : W) → 0 < mask (sys.prctl pr_set_pgtable_repl 1 w).1
  pub off_answer : (w : W) → (sys.prctl pr_set_pgtable_repl 0 w).0 ≡ pos 0
  pub off_mask : (w : W) → mask (sys.prctl pr_set_pgtable_repl 0 w).1 ≡ 0
  pub get_answer : (w : W) → (sys.prctl pr_get_pgtable_repl 0 w).0 ≡ pos (mask w)
  pub get_mask : (w : W) → mask (sys.prctl pr_get_pgtable_repl 0 w).1 ≡ mask w

-- fork() succeeds, gives the child the empty mask, and keeps the parent's; waiting for the child
-- reports the status with which it ended, and keeps the mask.
pub record Forks {W : Type 0} (tasks : Tasks W) (mask : W → ℕ) : Type 0 where
  pub pid_positive : (w : W) → is_positive (tasks.fork w).pid ≡ true
  pub parent_mask : (w : W) → mask (tasks.fork w).parent ≡ mask w
  pub child_mask : (w : W) → mask (tasks.fork w).child ≡ 0
  pub wait_status : (pid : ℤ) (n : ℕ) (child w : W) → (tasks.waitpid pid n child w).0 ≡ exited n
  pub wait_mask : (pid : ℤ) (n : ℕ) (child w : W) → mask (tasks.waitpid pid n child w).1 ≡ mask w

-- Memory that keeps what is written: `byte` and `word` are what a load would read. A store changes
-- its own place and no place apart from it, and a load changes nothing.
pub record Remembers {W : Type 0} (mem : Memory W) (byte word : W → ℕ → ℕ) : Type 0 where
  pub load_value : (a : ℕ) (w : W) → (mem.load a w).0 ≡ byte w a
  pub load_byte : (a b : ℕ) (w : W) → byte (mem.load a w).1 b ≡ byte w b
  pub store_same : (a v : ℕ) (w : W) → v < 256 → byte (mem.store a v w) a ≡ v
  pub store_other : (a v b : ℕ) (w : W) → a ≢ b → byte (mem.store a v w) b ≡ byte w b
  pub load32_value : (a : ℕ) (w : W) → (mem.load32 a w).0 ≡ word w a
  pub load32_word : (a b : ℕ) (w : W) → word (mem.load32 a w).1 b ≡ word w b
  pub store32_same : (a v : ℕ) (w : W) → v < 2 ^ 32 → word (mem.store32 a v w) a ≡ v
  pub store32_below : (a v b : ℕ) (w : W) → b + 4 ≤ a → word (mem.store32 a v w) b ≡ word w b
  pub store32_above : (a v b : ℕ) (w : W) → a + 4 ≤ b → word (mem.store32 a v w) b ≡ word w b

-- madvise(MADV_DONTNEED) succeeds, makes the words of its range zero, and leaves the others alone.
pub record Discards {W : Type 0} (mem : Memory W) (word : W → ℕ → ℕ) : Type 0 where
  pub answer : (a n : ℕ) (w : W) → (mem.discard a n w).0 ≡ pos 0
  pub inside : (a n b : ℕ) (w : W) → a ≤ b → b + 4 ≤ a + n → word (mem.discard a n w).1 b ≡ 0
  pub below : (a n b : ℕ) (w : W) → b + 4 ≤ a → word (mem.discard a n w).1 b ≡ word w b
  pub above : (a n b : ℕ) (w : W) → a + n ≤ b → word (mem.discard a n w).1 b ≡ word w b

-- mprotect() succeeds, and changes no word.
pub record Protects {W : Type 0} (mem : Memory W) (word : W → ℕ → ℕ) : Type 0 where
  pub protect_answer : (a n : ℕ) (p : Prot) (w : W) → (mem.mprotect a n p w).0 ≡ pos 0
  pub protect_word :
      (a n : ℕ) (p : Prot) (b : ℕ) (w : W) → word (mem.mprotect a n p w).1 b ≡ word w b

-- memset() writes its byte on its range, and leaves the other bytes alone.
pub record Fills {W : Type 0} (mem : Memory W) (byte : W → ℕ → ℕ) : Type 0 where
  pub filled : (a v n b : ℕ) (w : W) → v < 256 → a ≤ b → b < a + n → byte (mem.memset a v n w) b ≡ v
  pub before : (a v n b : ℕ) (w : W) → b < a → byte (mem.memset a v n w) b ≡ byte w b
  pub behind : (a v n b : ℕ) (w : W) → a + n ≤ b → byte (mem.memset a v n w) b ≡ byte w b

-- fork() gives the child a copy of the parent's private memory; waiting for the child, whatever it
-- did to its copy, and sleeping keep the parent's, and so does prctl.
pub record Isolates {W : Type 0} (sys : Replication W) (tasks : Tasks W) (byte : W → ℕ → ℕ)
    : Type 0 where
  pub parent_byte : (b : ℕ) (w : W) → byte (tasks.fork w).parent b ≡ byte w b
  pub child_byte : (b : ℕ) (w : W) → byte (tasks.fork w).child b ≡ byte w b
  pub wait_byte :
      (pid : ℤ) (n b : ℕ) (child w : W) → byte (tasks.waitpid pid n child w).1 b ≡ byte w b
  pub sleep_byte : (n b : ℕ) (w : W) → byte (tasks.usleep n w) b ≡ byte w b
  pub prctl_byte : (option n b : ℕ) (w : W) → byte (sys.prctl option n w).1 b ≡ byte w b

-- mmap() with MAP_FIXED answers the address that it is asked for, and leaves the bytes outside its
-- range alone.
pub record Replaces {W : Type 0} (mem : Memory W) (byte : W → ℕ → ℕ) : Type 0 where
  pub fixed_answer : (a n : ℕ) (p : Prot) (w : W) → (mem.mmap (fixed a) n p w).0 ≡ some a
  pub fixed_before :
      (a n b : ℕ) (p : Prot) (w : W) → b < a → byte (mem.mmap (fixed a) n p w).1 b ≡ byte w b
  pub fixed_behind :
      (a n b : ℕ) (p : Prot) (w : W) → a + n ≤ b → byte (mem.mmap (fixed a) n p w).1 b ≡ byte w b

-- munmap() succeeds, and leaves the bytes outside its range alone. MAP_FIXED_NOREPLACE answers the
-- address that it is asked for, if any, and leaves the bytes outside its range alone.
pub record Unmaps {W : Type 0} (mem : Memory W) (byte : W → ℕ → ℕ) : Type 0 where
  pub unmap_answer : (a n : ℕ) (w : W) → (mem.munmap a n w).0 ≡ pos 0
  pub unmap_before : (a n b : ℕ) (w : W) → b < a → byte (mem.munmap a n w).1 b ≡ byte w b
  pub unmap_behind : (a n b : ℕ) (w : W) → a + n ≤ b → byte (mem.munmap a n w).1 b ≡ byte w b
  pub gap_answer :
      (a n c : ℕ) (p : Prot) (w : W) → (mem.mmap (fixed_noreplace a) n p w).0 ≡ some c → c ≡ a
  pub gap_before :
      (a n b : ℕ) (p : Prot) (w : W)
      → b < a
      → byte (mem.mmap (fixed_noreplace a) n p w).1 b ≡ byte w b
  pub gap_behind :
      (a n b : ℕ) (p : Prot) (w : W)
      → a + n ≤ b
      → byte (mem.mmap (fixed_noreplace a) n p w).1 b ≡ byte w b

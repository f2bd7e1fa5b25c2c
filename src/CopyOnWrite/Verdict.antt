-- ===== src/CopyOnWrite/Verdict.antt =====
-- What the verdict of test10.c means for memory that a parent and its child hold apart.
use mitosis_tests.Base.{ℕ, ◌+◌, ◌*◌, ◌<◌, ◌≡◌, true, arith, is_positive, ℤ}
use mitosis_tests.Machine.{
  status, start, Process, pr_get_pgtable_repl, Replication, Memory, Tasks, exited, Remembers,
}
use mitosis_tests.Loops.{verify_bytes}
use mitosis_tests.Loops.Pages.{verify_bytes-byte, verify_bytes-found}
use mitosis_tests.CopyOnWrite.{
  num_pages, label, child_label, parent_label, modify_pages, child, finish, share,
}

module _ {W : Type 0} ⦃mem : Memory W⦄ ⦃sys : Replication W⦄ ⦃tasks : Tasks W⦄ where
  -- the child's last world, and the parent's once it has waited for the child
  abbrev pub child_end : ℕ → W → W
  child_end a w = (child a (start (tasks.fork w).child)).1.env

  abbrev pub parent_end : ℕ → W → W
  parent_end a w =
      let f = tasks.fork w in
      let w1 = modify_pages b'P' b'Z' a 1 5 (tasks.usleep 100000 f.parent) in
      (tasks.waitpid f.pid (status (child a) (start f.child)) (child_end a w) w1).1

module _ {W : Type 0} ⦃mem : Memory W⦄ ⦃sys : Replication W⦄ {byte word : W → ℕ → ℕ}
    (r : Remembers mem byte word) where
  -- A child that passes leaves its own labels behind.
  child-passes_only :
      (a : ℕ) (w : W)
      → status (child a) (start w) ≡ 0
      → (i : ℕ) → i < num_pages
      → byte (child a (start w)).1.env (a + i * 4096) ≡ child_label i
  unfolding child
  child-passes_only a w h i lt =
      let w1 = (sys.prctl pr_get_pgtable_repl 0 w).1 in
      let w2 = (verify_bytes label a 0 num_pages w1).1 in
      let w3 = modify_pages b'C' b'X' a 0 5 w2 in
      ground (
        arith,
        verify_bytes-byte r child_label a 0 num_pages (a + i * 4096) w3,
        verify_bytes-found r child_label a 0 num_pages i w3,
      )

  finish-passes_only :
      (a : ℕ) (s : Process W)
      → status (finish a) s ≡ 0
      → (i : ℕ) → i < num_pages
      → byte s.env (a + i * 4096) ≡ parent_label i
  unfolding finish
  finish-passes_only a s h i lt =
      ground (arith, verify_bytes-found r parent_label a 0 num_pages i s.env)

  module _ ⦃tasks : Tasks W⦄ where
    -- On memory that keeps what is written, where waitpid() reports the status with which the child ended
    -- and fork() returns a positive number, test10.c passes, from its fork on, only if the first byte of
    -- every page is in the end the child's label in the child and the parent's label in the parent:
    -- neither sees what the other wrote.
    pub cow-passes_only :
        (truthful : (pid : ℤ) (n : ℕ) (c v : W) → (tasks.waitpid pid n c v).0 ≡ exited n) (a : ℕ)
        (s : Process W)
        → is_positive (tasks.fork s.env).pid ≡ true
        → status (share a) s ≡ 0
        → (i : ℕ) → i < num_pages
        → (byte (child_end a s.env) (a + i * 4096) ≡ child_label i)
          × (byte (parent_end a s.env) (a + i * 4096) ≡ parent_label i)
    unfolding share
    cow-passes_only truthful a s parent h i lt =
        let f = tasks.fork s.env in
        let n = status (child a) (start f.child) in
        let w1 = modify_pages b'P' b'Z' a 1 5 (tasks.usleep 100000 f.parent) in
        let reported = truthful f.pid n (child_end a s.env) w1 in
        let ended = finish-passes_only a (record s { env = parent_end a s.env }) in
        (
          child-passes_only a f.child (ground (arith, reported)) i lt,
          ended (ground (arith, reported)) i lt,
        )

-- ===== src/CopyOnWrite/Isolation.antt =====
-- What the verdict of test10.c is where fork() gives the child a copy of the memory.
use mitosis_tests.Base.{
  ℕ, ◌+◌, ◌*◌, ◌/◌, ◌%◌, ◌<◌, ◌≡◌, inl, inr, true, List, arith, Bool-cases, ◌==◌, is_positive, ℤ,
  pos, ◌∙◌,
}
use mitosis_tests.Machine.{
  status, start, pr_get_pgtable_repl, Event, Replication, Memory, Tasks, exited, Remembers, Fills,
  Isolates,
}
use mitosis_tests.Loops.{verify_bytes}
use mitosis_tests.Loops.Pages.{verify_bytes-byte, verify_bytes-true}
use mitosis_tests.CopyOnWrite.{
  num_pages, label, child_label, parent_label, init_pages, modify_pages, child, finish, share,
}
use mitosis_tests.CopyOnWrite.Pages.{init_pages-at, modify_pages-at, modify_pages-other}
use mitosis_tests.CopyOnWrite.Verdict.{child_end, parent_end}

module _ {W : Type 0} ⦃mem : Memory W⦄ {byte word : W → ℕ → ℕ} (r : Remembers mem byte word)
    (fills : Fills mem byte) where
  -- The labels after the child's loop, and after the parent's.
  child_label_lem :
      (a k : ℕ) (w : W)
      → k < num_pages
      → byte w (a + k * 4096) ≡ label k
      → byte (modify_pages b'C' b'X' a 0 5 w) (a + k * 4096) ≡ child_label k
  child_label_lem a k w lt h = elim (Bool-cases (k % 2 == 0)) [
    | inl even ↦
        let e : 0 + 2 * (k / 2) ≡ k = ground arith in
        let written =
          modify_pages-at r fills b'C' b'X' a 0 5 (k / 2) w (omega arith) (omega arith) in
        ground (arith, rw e at written)
    | inr odd ↦ ground (arith, modify_pages-other r fills b'C' b'X' a 0 5 k w (λ m e. ground arith))
  ]

  parent_label_lem :
      (a k : ℕ) (w : W)
      → k < num_pages
      → byte w (a + k * 4096) ≡ label k
      → byte (modify_pages b'P' b'Z' a 1 5 w) (a + k * 4096) ≡ parent_label k
  parent_label_lem a k w lt h = elim (Bool-cases (k % 2 == 0)) [
    | inl even ↦
        ground (arith, modify_pages-other r fills b'P' b'Z' a 1 5 k w (λ m e. ground arith))
    | inr odd ↦
        let e : 1 + 2 * (k / 2) ≡ k = ground arith in
        let written =
          modify_pages-at r fills b'P' b'Z' a 1 5 (k / 2) w (omega arith) (omega arith) in
        ground (arith, rw e at written)
  ]

  module _ ⦃sys : Replication W⦄ ⦃tasks : Tasks W⦄ (isolates : Isolates sys tasks byte) where
    child-passes :
        (a : ℕ) (w : W)
        → ((k : ℕ) → k < num_pages → byte w (a + k * 4096) ≡ label k)
        → (sys.prctl pr_get_pgtable_repl 0 w).0 ≡ pos 0
        → status (child a) (start w) ≡ 0
    unfolding child
    child-passes a w h fresh =
        let w1 = (sys.prctl pr_get_pgtable_repl 0 w).1 in
        let w2 = (verify_bytes label a 0 num_pages w1).1 in
        let w3 = modify_pages b'C' b'X' a 0 5 w2 in
        let seen = λ (k : ℕ) (lt : k < num_pages).
          isolates.prctl_byte pr_get_pgtable_repl 0 (a + k * 4096) w ∙ h k lt in
        let still = λ (k : ℕ) (lt : k < num_pages).
          verify_bytes-byte r label a 0 num_pages (a + k * 4096) w1 ∙ seen k lt in
        ground (
          arith,
          fresh,
          verify_bytes-true r label a 0 num_pages w1 (λ k le lt. seen k lt),
          verify_bytes-true r child_label a 0 num_pages w3
              (λ k le lt. child_label_lem a k w2 lt (still k lt)),
        )

    parent_end-label :
        (a : ℕ) (w : W)
        → ((k : ℕ) → k < num_pages → byte w (a + k * 4096) ≡ label k)
        → (k : ℕ) → k < num_pages
        → byte (parent_end a w) (a + k * 4096) ≡ parent_label k
    parent_end-label a w h k lt =
        let f = tasks.fork w in
        let w1 = tasks.usleep 100000 f.parent in
        let w2 = modify_pages b'P' b'Z' a 1 5 w1 in
        let b = a + k * 4096 in
        isolates.wait_byte f.pid (status (child a) (start f.child)) b (child_end a w) w2
        ∙ parent_label_lem a k w1 lt
            (isolates.sleep_byte 100000 b f.parent ∙ isolates.parent_byte b w ∙ h k lt)

    -- the parent's world at its last GET
    abbrev pub last_world : ℕ → W → W
    last_world a w =
        (verify_bytes parent_label a 0 num_pages (parent_end a (init_pages a 0 num_pages w))).1

    -- On memory that keeps what is written, where fork() gives the child a copy of it and replication that
    -- is off, waitpid() reports the status with which the child ended, and the parent's last GET is
    -- positive, test10.c passes, from the state in which its pages were initialized on.
    pub cow-passes :
        (truthful : (pid : ℤ) (n : ℕ) (c v : W) → (tasks.waitpid pid n c v).0 ≡ exited n)
        (positive : (w : W) → is_positive (tasks.fork w).pid ≡ true)
        (fresh : (w : W) → (sys.prctl pr_get_pgtable_repl 0 (tasks.fork w).child).0 ≡ pos 0) (a : ℕ)
        (w : W) (t : List Event)
        → is_positive (sys.prctl pr_get_pgtable_repl 0 (last_world a w)).0 ≡ true
        → status (share a) (record { env = init_pages a 0 num_pages w; trace = t }) ≡ 0
    unfolding share finish
    cow-passes truthful positive fresh a w t shown =
        let w1 = init_pages a 0 num_pages w in
        let f = tasks.fork w1 in
        let w2 = modify_pages b'P' b'Z' a 1 5 (tasks.usleep 100000 f.parent) in
        let labels = λ (k : ℕ) (lt : k < num_pages).
          init_pages-at r fills a 0 num_pages k w (omega arith) (omega arith) lt in
        let copied =
          λ (k : ℕ) (lt : k < num_pages). isolates.child_byte (a + k * 4096) w1 ∙ labels k lt in
        ground (
          arith,
          positive w1,
          truthful f.pid (status (child a) (start f.child)) (child_end a w1) w2,
          child-passes a f.child copied (fresh w1),
          verify_bytes-true r parent_label a 0 num_pages (parent_end a w1)
              (λ k le lt. parent_end-label a w1 labels k lt),
        )

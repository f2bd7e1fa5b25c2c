-- ===== src/Transition/Verdict.antt =====
-- What the verdict of test6.c means for a program that replaces another.
use mitosis_tests.Base.{ℕ, ◌≡◌, true, arith, is_positive, ℤ}
use mitosis_tests.Machine.{
  status, calls, start, Process, Replication, pr_get_pgtable_repl, Memory, Tasks, Execs, exited,
  Remembers,
}
use mitosis_tests.Loops.Texts.{Holds, same_text-found}
use mitosis_tests.Inherit.Verdict.{IsFreshChild}
use mitosis_tests.Transition.{test_data, image, child, finish, transit}

module _ {W : Type 0} ⦃sys : Replication W⦄ ⦃execs : Execs W⦄ where
  -- A child that passes was replaced by a program that found replication off.
  child-passes_only :
      (w : W)
      → status child (start w) ≡ 0
      → ((execs.execvp w).0 ≡ true) × IsFreshChild (calls child (start w))
  unfolding child image
  child-passes_only w h = (ground arith, ground arith)

  module _ ⦃tasks : Tasks W⦄ where
    -- the parent's world once it has waited for the child
    abbrev pub parent_end : W → W
    parent_end w =
        let f = tasks.fork w in
        let c = child (start f.child) in
        (tasks.waitpid f.pid (status child (start f.child)) c.1.env f.parent).1

  module _ ⦃mem : Memory W⦄ {byte word : W → ℕ → ℕ} (r : Remembers mem byte word) where
    finish-passes_only :
        (a : ℕ) (s : Process W)
        → status (finish a) s ≡ 0
        → let (mask, w) = sys.prctl pr_get_pgtable_repl 0 s.env in
          (is_positive mask ≡ true) × Holds r a test_data w
    unfolding finish
    finish-passes_only a s h =
        let w = (sys.prctl pr_get_pgtable_repl 0 s.env).1 in
        (ground arith, same_text-found r a test_data w (ground arith))

    module _ ⦃tasks : Tasks W⦄ where
      -- On memory that keeps what is written, where waitpid() reports the status with which the child
      -- ended, test6.c passes, from its fork on, only if the child was replaced by a program that found
      -- the mask 0, could switch replication on and then saw a nonempty mask, and the parent afterwards
      -- still sees a nonempty mask and its string "TestData".
      pub transition-passes_only :
          (truthful : (pid : ℤ) (n : ℕ) (c v : W) → (tasks.waitpid pid n c v).0 ≡ exited n) (a : ℕ)
          (s : Process W)
          → status (transit a) s ≡ 0
          → let begun = (tasks.fork s.env).child in
            let (mask, w) = sys.prctl pr_get_pgtable_repl 0 (parent_end s.env) in
            ((execs.execvp begun).0 ≡ true)
            × IsFreshChild (calls child (start begun))
            × (is_positive mask ≡ true)
            × Holds r a test_data w
      unfolding transit
      transition-passes_only truthful a s h =
          let f = tasks.fork s.env in
          let reported =
            truthful f.pid (status child (start f.child)) (child (start f.child)).1.env f.parent in
          let (replaced, fresh) = child-passes_only f.child (ground (arith, reported)) in
          let ended =
            finish-passes_only a (record s { env = parent_end s.env }) (ground (arith, reported)) in
          (replaced, fresh, ended.0, ended.1)

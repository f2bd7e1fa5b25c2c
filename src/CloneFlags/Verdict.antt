-- ===== src/CloneFlags/Verdict.antt =====
-- What the verdict of test26.c means.
use mitosis_tests.Base.{ℕ, ◌≡◌, true, false, arith, is_nonzero, is_positive, ℤ, pos}
use mitosis_tests.Machine.{
  status, start, Process, pr_get_pgtable_repl, Replication, Memory, Tasks, exited,
}
use mitosis_tests.CloneFlags.{child_func, clone_plain}

module _ {W : Type 0} ⦃sys : Replication W⦄ ⦃mem : Memory W⦄ where
  -- the child's first answer
  child_func-passes_only :
      (w : W) → status child_func (start w) ≡ 0 → (sys.prctl pr_get_pgtable_repl 0 w).0 ≡ pos 0
  unfolding child_func
  child_func-passes_only w h = ground arith

  module _ ⦃tasks : Tasks W⦄ where
    -- Where waitpid() reports the status with which the child ended and clone() returns a positive number,
    -- the part of test26.c without CLONE_VM passes only if the child's first GET answered 0 and the
    -- parent's GET after the clone did not.
    pub clone_plain-passes_only :
        (truthful : (pid : ℤ) (n : ℕ) (c v : W) → (tasks.waitpid pid n c v).0 ≡ exited n) (base : ℕ)
        (s : Process W)
        → is_positive (tasks.clone false s.env).pid ≡ true
        → status (clone_plain base) s ≡ 0
        → ((sys.prctl pr_get_pgtable_repl 0 (tasks.clone false s.env).child).0 ≡ pos 0)
          × (is_nonzero (sys.prctl pr_get_pgtable_repl 0 (tasks.clone false s.env).parent).0 ≡ true)
    unfolding clone_plain
    clone_plain-passes_only truthful base s parent h =
        let f = tasks.clone false s.env in
        let child = child_func (start f.child) in
        let w1 = (sys.prctl pr_get_pgtable_repl 0 f.parent).1 in
        let reported = truthful f.pid (status child_func (start f.child)) child.1.env w1 in
        (child_func-passes_only f.child (ground (arith, reported)), ground arith)

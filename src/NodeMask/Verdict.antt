-- ===== src/NodeMask/Verdict.antt =====
-- What the verdict of test4.c means.
use mitosis_tests.Base.{
  ℕ, ◌%◌, ◌≤◌, ◌≡◌, sym, ap, subst, ◌∙◌, ◌≢◌, Bool, true, false, not, ◌&&◌, ◌||◌, List, [], ◌∷◌,
  arith, ltb, ◌==◌, if◌then◌else◌, is_neg,
}
use mitosis_tests.Machine.{
  armed, Event, set, get, status_of, status, calls, start, Process, Outcome, ok, ended,
  pr_set_pgtable_repl, Replication, Nodes,
}
use mitosis_tests.NodeMask.{main, tests, one_node, two_nodes, missing_node, all_nodes, bits}

-- Nodes 0 and 1 were asked for, this was granted, and the mask shown next has both.
abbrev pub shows_both : List Event → Bool
shows_both (get mask ∷ set n a ∷ t) =
    ((n == 3) && not (is_neg a) && (bits mask % 4 == 3)) || shows_both t
shows_both (_ ∷ t) = shows_both t
shows_both [] = false

module _ {W : Type 0} ⦃sys : Replication W⦄ ⦃nodes : Nodes W⦄ where
  one_node-ne-passed : (s : Process W) → (one_node s).0 ≢ ended 0
  unfolding one_node bits
  one_node-ne-passed s h = ground arith

  two_nodes-ne-passed : (s : Process W) → (two_nodes s).0 ≢ ended 0
  unfolding two_nodes bits
  two_nodes-ne-passed s h = ground arith

  shows_both-two_nodes :
      (s : Process W) → (two_nodes s).0 ≡ ok tt → shows_both (two_nodes s).1.trace ≡ true
  unfolding two_nodes bits
  shows_both-two_nodes s h = ground arith

  missing_node_lem :
      (s : Process W)
      → ((missing_node s).0 ≡ ok tt) × (shows_both (missing_node s).1.trace ≡ shows_both s.trace)
  unfolding missing_node
  missing_node_lem s = (ground arith, ground arith)

  all_nodes_lem :
      (s : Process W)
      → status all_nodes s ≡ 0
      → (armed (calls all_nodes s) ≡ false)
        × (shows_both s.trace ≡ true → shows_both (calls all_nodes s) ≡ true)
  unfolding all_nodes bits
  all_nodes_lem s h = (ground arith, λ shown. ground arith)

  tests_lem :
      (n : ℕ) (s : Process W)
      → 2 ≤ n
      → status (tests n) s ≡ 0
      → (shows_both (calls (tests n) s) ≡ true) × (armed (calls (tests n) s) ≡ false)
  unfolding tests
  tests_lem n s enough h =
      let s1 = (one_node s).1 in
      let s2 = (two_nodes s1).1 in
      let s3 = (missing_node s2).1 in
      let shown = shows_both-two_nodes s1 in
      let (goes_on, kept) = missing_node_lem s2 in
      let seen = all_nodes_lem s2 in
      let seen3 = all_nodes_lem s3 in
      (
        ground (arith, one_node-ne-passed s, two_nodes-ne-passed s1),
        ground (arith, one_node-ne-passed s, two_nodes-ne-passed s1),
      )

  main-tests :
      (w : W)
      → is_neg (nodes.numa_available w) ≡ false
      → 2 ≤ nodes.numa_num_configured_nodes w
      → main (start w) ≡ tests (nodes.numa_num_configured_nodes w) (start w)
  unfolding main
  main-tests w available enough =
      let few : ltb (nodes.numa_num_configured_nodes w) 2 ≡ false = ground arith in
      rw (available, few)

  -- With libnuma available and two nodes or more, test4.c passes only if a switch-on for nodes 0 and 1
  -- was granted and the mask shown next holds both, and it ends with replication asked to be off.
  pub node_mask-passes_only :
      (w : W)
      → is_neg (nodes.numa_available w) ≡ false
      → 2 ≤ nodes.numa_num_configured_nodes w
      → status main (start w) ≡ 0
      → (shows_both (calls main (start w)) ≡ true) × (armed (calls main (start w)) ≡ false)
  node_mask-passes_only w available enough h =
      let e = main-tests w available enough in
      let passed = ap (λ (o : Outcome (Unit {0}) × Process W). status_of o.0) (sym e) ∙ h in
      subst
        (λ (o : Outcome (Unit {0}) × Process W).
          (shows_both o.1.trace ≡ true) × (armed o.1.trace ≡ false))
        (sym e) (tests_lem (nodes.numa_num_configured_nodes w) (start w) enough passed)

  -- The last part of test4.c, on the mask for all nodes, fails exactly if the kernel answers the
  -- switch-on with an error: the mask that it reads afterwards never matters.
  all_nodes-ignores_mask :
      (s : Process W)
      → status all_nodes s ≡ (if is_neg (sys.prctl pr_set_pgtable_repl 1 s.env).0 then 1 else 0)
  unfolding all_nodes
  all_nodes-ignores_mask s = ground arith

-- ===== src/PageMigration/Verdict.antt =====
-- What the verdict of test23.c is on a kernel whose migration loses a page.
use mitosis_tests.Base.{ℕ, ◌+◌, ◌*◌, ◌≤◌, ◌≡◌, false, none, some, List, ◌∷◌, arith, is_neg}
use mitosis_tests.Machine.{
  Process, status, start, ok, Replication, Memory, Nodes, Policies, Migration, Remembers,
}
use mitosis_tests.Loops.Pages.{agree_words-false}
use mitosis_tests.PageMigration.{
  num_pages, content, pages_from, nodes_from, migrate, use_policy, finish, run, main,
}

module _ {W : Type 0} ⦃mem : Memory W⦄ ⦃migration : Migration W⦄ ⦃sys : Replication W⦄
    ⦃policies : Policies W⦄ where
  module _ {byte word : W → ℕ → ℕ} (r : Remembers mem byte word) where
    migrate-false :
        (lost : (a : ℕ) (pages nodes : List ℕ) (w : W)
          → word (migration.move_pages (a ∷ pages) (some nodes) w).1 a ≡ 0)
        (num_nodes a : ℕ) (s : Process W)
        → (migrate num_nodes a s).0 ≡ ok false
    unfolding migrate pages_from
    migrate-false lost num_nodes a s =
        let e : a + 0 * 4096 ≡ a = omega arith in
        let pages = pages_from a 0 num_pages in
        let nodes = nodes_from num_nodes 0 num_pages in
        let w1 = (migration.move_pages pages none s.env).1 in
        let w2 = (migration.move_pages pages (some nodes) w1).1 in
        let gone : word w2 (a + 0 * 4096) ≡ 0 =
          lost (a + 0 * 4096) (pages_from a (0 + 1) 15) nodes w1 in
        let seen =
          agree_words-false r content a 0 num_pages w2 (omega arith) (omega (arith, gone)) in
        ground (arith, seen)

    run-fails :
        (lost : (a : ℕ) (pages nodes : List ℕ) (w : W)
          → word (migration.move_pages (a ∷ pages) (some nodes) w).1 a ≡ 0)
        (num_nodes : ℕ) (s : Process W)
        → status (run num_nodes) s ≡ 1
    unfolding run use_policy finish
    run-fails lost num_nodes s = grind (arith, migrate-false lost num_nodes)

    -- Where libnuma is available and shows two nodes at least, on memory that keeps what is written,
    -- test23.c fails on every kernel on which a call of move_pages() that moves pages leaves zero at the
    -- start of the first of them.
    pub migration-rejects_lost :
        ((a : ℕ) (pages nodes : List ℕ) (w : W)
          → word (migration.move_pages (a ∷ pages) (some nodes) w).1 a ≡ 0)
        → ⦃nodes : Nodes W⦄ (w : W) → is_neg (nodes.numa_available w) ≡ false
        → 2 ≤ nodes.numa_num_configured_nodes w
        → status main (start w) ≡ 1
    unfolding main
    migration-rejects_lost lost w available many = grind (arith, run-fails lost)

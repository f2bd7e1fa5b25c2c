-- ===== src/PageMigration.antt =====
-- test23.c: move_pages() and a memory policy while replication is on.
pub mod Verdict
pub mod Hygiene
use mitosis_tests.Base.{
  ℕ, zero, suc, ◌+◌, ◌*◌, ◌%◌, Bool, true, false, not, ◌&&◌, Option, none, some, List, [], ◌∷◌, ltb,
  ◌==◌, is_neg, is_nonzero,
}
use mitosis_tests.Machine.{
  Program, pure, exit, quietly, ◌>>=◌, ◌>>◌, when, require, either, choose, set_repl, get_repl,
  Replication, mmap, munmap, effect, Memory, read_write, private_anonymous, Nodes, Policies,
  preferred, policy_default, Migration,
}
use mitosis_tests.Loops.{write_words, agree_words}

abbrev pub num_pages : ℕ
num_pages = 16

abbrev pub area_size : ℕ
area_size = 4096 * num_pages

-- `0xAA + i`, the first int of page `i`
abbrev pub content : ℕ → ℕ
content i = 0xAA + i

-- the arrays `pages` and `nodes`, from page `i` on
unfoldable pub pages_from : ℕ → ℕ → ℕ → List ℕ
pages_from test_area i zero = []
pages_from test_area i (suc n) = (test_area + i * 4096) ∷ pages_from test_area (i + 1) n

unfoldable pub nodes_from : ℕ → ℕ → ℕ → List ℕ
nodes_from num_nodes i zero = []
nodes_from num_nodes i (suc n) = (i % num_nodes) ∷ nodes_from num_nodes (i + 1) n

module _ {W : Type 0} ⦃mem : Memory W⦄ ⦃migration : Migration W⦄ where
  -- from "Check current node placement" to the verification after the migration
  unfoldable pub migrate : ℕ → ℕ → Program W Bool
  migrate num_nodes test_area = do
    let pages = pages_from test_area 0 num_pages
    asked ← quietly (migration.move_pages pages none)
    quietly (migration.move_pages pages (some (nodes_from num_nodes 0 num_pages)))
    good ← quietly (agree_words content test_area 0 num_pages)
    pure (not (is_nonzero asked) && good)

  -- "Test NUMA memory policy with replication"
  unfoldable pub use_policy : ⦃policies : Policies W⦄ → Program W Bool
  use_policy ⦃policies⦄ = do
    quietly (policies.set_mempolicy preferred 2 2)
    found ← mmap private_anonymous 4096 read_write
    good ← either found (pure true) (λ policy_page. do
      effect (mem.store32 policy_page 0xBEEF)
      quietly (migration.move_pages (policy_page ∷ []) none)
      x ← quietly (mem.load32 policy_page)
      munmap policy_page 4096
      pure (x == 0xBEEF))
    quietly (policies.set_mempolicy policy_default 0 0)
    pure good

  module _ ⦃sys : Replication W⦄ where
    -- the switching off, the last check and the end
    unfoldable pub finish : Bool → ℕ → Program W (Unit {0})
    finish pass test_area = do
      ret ← set_repl 0
      good ← quietly (agree_words content test_area 0 num_pages)
      munmap test_area area_size
      when (pass && (not (is_nonzero ret) && good)) (exit 0)
      exit 1

    module _ ⦃policies : Policies W⦄ where
      -- from the allocation of the test area on
      unfoldable pub run : ℕ → Program W (Unit {0})
      run num_nodes = do
        found ← mmap private_anonymous area_size read_write
        test_area ← require found (exit 1)
        effect (write_words content test_area 0 num_pages)
        ret ← set_repl 1
        when (is_nonzero ret) (do munmap test_area area_size; exit 1)
        get_repl
        moved ← migrate num_nodes test_area
        kept ← use_policy
        finish (moved && kept) test_area

      unfoldable pub main : ⦃nodes : Nodes W⦄ → Program W (Unit {0})
      main ⦃nodes⦄ = do
        available ← quietly (λ w. (nodes.numa_available w, w))
        when (is_neg available) (exit 0)
        num_nodes ← quietly (λ w. (nodes.numa_num_configured_nodes w, w))
        when (ltb num_nodes 2) (exit 0)
        run num_nodes

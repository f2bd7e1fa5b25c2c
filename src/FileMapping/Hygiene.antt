-- ===== src/FileMapping/Hygiene.antt =====
-- What test29.c leaves behind.
use mitosis_tests.Base.{ℕ, ◌+◌, arith}
use mitosis_tests.Machine.{
  same, IsSettled, Resource, region, block, descriptor, file, calls, start, Owes, Process,
  Replication, Memory, Nodes, Files,
}
use mitosis_tests.FileMapping.{
  file_size, finish, test_verify, test_shared, test_private, test_file, main,
}

-- The block, the descriptor and the file that are held from the first test on, and a mapping.
abbrev base : Resource → ℕ → ℕ → ℕ
base r d fd = same r (block d) + same r (descriptor fd) + same r file

abbrev mapped : Resource → ℕ → ℕ
mapped r a = same r (region a file_size)

module _ {W : Type 0} ⦃mem : Memory W⦄ ⦃files : Files W⦄ ⦃sys : Replication W⦄ (r : Resource) where
  finish-Owes :
      (d fd p q v : ℕ) (s : Process W)
      → Owes r (base r d fd + mapped r p + mapped r q + mapped r v) s
      → Owes r 0 (finish d fd p q v s).1
  unfolding finish
  finish-Owes d fd p q v s h = ground arith

  test_verify-Owes :
      (d fd p q : ℕ) (s : Process W)
      → Owes r (base r d fd + mapped r p + mapped r q) s
      → Owes r 0 (test_verify d fd p q s).1
  unfolding test_verify
  test_verify-Owes d fd p q s h = grind (arith, finish-Owes)

  test_shared-Owes :
      (d fd p : ℕ) (s : Process W)
      → Owes r (base r d fd + mapped r p) s
      → Owes r 0 (test_shared d fd p s).1
  unfolding test_shared
  test_shared-Owes d fd p s h = grind (arith, test_verify-Owes)

  test_private-Owes :
      (d fd : ℕ) (s : Process W) → Owes r (base r d fd) s → Owes r 0 (test_private d fd s).1
  unfolding test_private
  test_private-Owes d fd s h = grind (arith, test_shared-Owes)

  test_file-Owes : (s : Process W) → Owes r 0 s → Owes r 0 (test_file s).1
  unfolding test_file
  test_file-Owes s h = grind (arith, test_private-Owes)

module _ {W : Type 0} ⦃mem : Memory W⦄ ⦃files : Files W⦄ ⦃sys : Replication W⦄
    ⦃nodes : Nodes W⦄ where
  -- Whatever the system answers, test29.c ends with every mapping, the block, the descriptor and the
  -- file given back as often as they were taken.
  pub file_mapping-IsSettled : (w : W) → IsSettled (calls main (start w))
  unfolding main
  file_mapping-IsSettled w r = ground (arith, test_file-Owes r (start w))

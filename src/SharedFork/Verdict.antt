-- ===== src/SharedFork/Verdict.antt =====
-- What the verdict of test20.c means, and what the test leaves behind.
use mitosis_tests.Base.{ℕ, Bool, ◌≡◌, false, arith}
use mitosis_tests.Machine.{
  Process, Outcome, ok, ended, Owes, Resource, IsSettled, block, same, calls, status, start, Status,
  is_failure, Replication, Memory, Tasks, Vforks,
}
use mitosis_tests.SharedFork.{parent_word, heap_word, second_vfork, finish, main}

module _ {W : Type 0} ⦃mem : Memory W⦄ (parent_var child_touched : ℕ) ⦃sys : Replication W⦄
    ⦃tasks : Tasks W⦄ ⦃vforks : Vforks W⦄ where
  abbrev Keeps : Process W → Outcome Bool × Process W → Type 0
  Keeps s (ok b, s') = s'.trace ≡ s.trace
  Keeps s (ended n, s') = ⊥

  second_vfork-Keeps : (s : Process W) → Keeps s (second_vfork s)
  unfolding second_vfork
  second_vfork-Keeps s = ground arith

  finish-Owes :
      (r : Resource) (heap_data : ℕ) (told : Status) (s : Process W)
      → Owes r (same r (block heap_data)) s
      → Owes r 0 (finish parent_var child_touched heap_data told s).1
  unfolding finish
  finish-Owes r heap_data told s h = grind (arith, second_vfork-Keeps)

  -- Whatever the system answers, test20.c ends with its block freed as often as it was given, on each of
  -- its paths.
  shared_fork-IsSettled : (w : W) → IsSettled (calls (main parent_var child_touched) (start w))
  unfolding main
  shared_fork-IsSettled w r = grind (arith, finish-Owes r)

  -- On memory in which a load answers the word of its address and changes none: whatever else the system
  -- answers, test20.c passes, from the end of its first child on, only if that child ended with status 0,
  -- what it wrote is in the memory of the parent, and the words of the parent are unchanged.
  pub finish-finds :
      {word : W → ℕ → ℕ}
      → (value : (a : ℕ) (w : W) → (mem.load32 a w).0 ≡ word w a)
      → (kept : (a b : ℕ) (w : W) → word (mem.load32 a w).1 b ≡ word w b)
      → (heap_data : ℕ) (told : Status) (s : Process W)
      → status (finish parent_var child_touched heap_data told) s ≡ 0
      → (is_failure told ≡ false)
        × (word s.env child_touched ≡ 1)
        × (word s.env parent_var ≡ parent_word)
        × (word s.env heap_data ≡ heap_word)
  unfolding finish
  finish-finds value kept heap_data told s h =
      let w1 = (mem.load32 child_touched s.env).1 in
      let w2 = (mem.load32 parent_var w1).1 in
      let w3 = (mem.load32 heap_data w2).1 in
      ground (
        arith,
        value child_touched s.env,
        value parent_var w1,
        value heap_data w2,
        kept child_touched parent_var s.env,
        kept child_touched heap_data s.env,
        kept parent_var heap_data w1,
        second_vfork-Keeps (record s { env = w3 }),
      )

-- ===== src/Faulting/Hygiene.antt =====
-- What test24.c leaves behind.
use mitosis_tests.Base.{ℕ, ◌+◌, ◌*◌, ◌≢◌, Bool, arith}
use mitosis_tests.Machine.{
  same, IsSettled, Resource, region, block, descriptor, calls, start, ok, Owes, Process,
  Replication, Memory, Tasks, Threads, Userfaults,
}
use mitosis_tests.Faulting.{page_size, num_pages, replicate, finish, use_pages, main}

-- What the process has taken before its first access.
abbrev taken : Resource → ℕ → ℕ → ℕ → ℕ
taken r uffd a page =
    same r (block page) + same r (region a (page_size * num_pages)) + same r (descriptor uffd)

module _ {W : Type 0} ⦃mem : Memory W⦄ ⦃faults : Userfaults W⦄ ⦃sys : Replication W⦄ where
  finish-Owes :
      (r : Resource) (uffd a page : ℕ) (running pass : Bool) (s : Process W)
      → Owes r (taken r uffd a page) s
      → Owes r 0 (finish uffd a page running pass s).1
  unfolding finish
  finish-Owes r uffd a page running pass s h = ground arith

  use_pages-Owes :
      (r : Resource) (uffd a page : ℕ) (s : Process W)
      → Owes r (taken r uffd a page) s
      → Owes r 0 (use_pages uffd a page s).1
  unfolding use_pages replicate
  use_pages-Owes r uffd a page s h = grind (arith, finish-Owes r uffd a page)

  -- Whatever the system answers, a run of test24.c that ends gives back the descriptor, the mapping and
  -- the page of the handler as often as they were granted.
  faulting-IsSettled :
      ⦃tasks : Tasks W⦄ ⦃threads : Threads W⦄ (rounds : ℕ) (w : W)
      → (main rounds (start w)).0 ≢ ok tt
      → IsSettled (calls (main rounds) (start w))
  unfolding main
  faulting-IsSettled rounds w h r = grind (arith, use_pages-Owes r)

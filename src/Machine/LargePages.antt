-- ===== src/Machine/LargePages.antt =====
-- Memory in huge pages.
use mitosis_tests.Base.{ℕ, Option, none, some, ℤ}
use mitosis_tests.Machine.Events.{Event, block, acquire, refused}
use mitosis_tests.Machine.Monad.{Program, observed}

pub record Huge (W : Type 0) : Type 0 where
  -- posix_memalign(&memptr, alignment, size)
  pub posix_memalign : ℕ → ℕ → W → Option ℕ × W
  -- madvise(addr, len, MADV_HUGEPAGE)
  pub advise_huge : ℕ → ℕ → W → ℤ × W

abbrev aligned : Option ℕ → Event
aligned none = refused
aligned (some a) = acquire (block a)

abbrev pub posix_memalign : {W : Type 0} ⦃huge : Huge W⦄ → ℕ → ℕ → Program W (Option ℕ)
posix_memalign ⦃huge⦄ alignment n = observed (huge.posix_memalign alignment n) aligned

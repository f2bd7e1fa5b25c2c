-- ===== src/Machine/Rlimit.antt =====
-- Resource limits.
use mitosis_tests.Base.{ℕ, Option, if◌then◌else◌, is_neg, ℤ}
use mitosis_tests.Machine.Events.{Limit, quota, acquire, release, refused}
use mitosis_tests.Machine.Monad.{Program, observed}

pub record Limits (W : Type 0) : Type 0 where
  -- the soft and the hard limit; `none` is an error
  pub getrlimit : Limit → W → Option (ℕ × ℕ) × W
  pub setrlimit : Limit → ℕ → ℕ → W → ℤ × W

module _ {W : Type 0} ⦃limits : Limits W⦄ where
  -- `setrlimit` to a lower limit, which the test has to undo if it succeeds
  abbrev pub lower_limit : Limit → ℕ → ℕ → Program W ℤ
  lower_limit l soft hard =
      observed (limits.setrlimit l soft hard)
        (λ ret. if is_neg ret then refused else acquire (quota l))

  -- `setrlimit(l, &orig_rlim);`
  abbrev pub restore_limit : Limit → ℕ × ℕ → Program W (Unit {0})
  restore_limit l orig =
      observed (λ w. (tt, (limits.setrlimit l orig.0 orig.1 w).1)) (λ _. release (quota l))

-- ===== src/Machine/Pool/Turns.antt =====
-- A turn is a step of one thread, or of none.
use mitosis_tests.Base.{ℕ, ◌-◌, ◌≤◌, ◌<◌, ◌≡◌, ◌≢◌, refl, List, [], ◌∷◌, arith}
use mitosis_tests.Machine.Pool.{total, turn}

pub total-le :
    {T : Type 0} (f g : T → ℕ) → ((t : T) → f t ≤ g t) → (l : List T) → total f l ≤ total g l
total-le f g le [] = omega arith
total-le f g le (t ∷ l) = omega (arith, le t, total-le f g le l)

module _ {S T : Type 0} (advance : T → S → T × S) (rank : T → ℕ) where
  module _ (s : S) where
    -- If the step brings its thread nearer to its end, so does the turn for all threads.
    pub turn-falls :
        ((t : T) → rank t ≢ 0 → rank (advance t s).0 < rank t)
        → (k : ℕ) (l : List T) → total rank (turn advance rank k l s).0 ≤ total rank l - 1
    unfolding turn
    turn-falls progress k [] = omega arith
    turn-falls progress k (t ∷ l) =
        ground (arith, progress t, turn-falls progress k l, turn-falls progress (k - 1) l)

    pub turn-number :
        (number : T → ℕ)
        → ((t : T) → number (advance t s).0 ≡ number t)
        → (k : ℕ) (l : List T) → total number (turn advance rank k l s).0 ≡ total number l
    unfolding turn
    turn-number number same k [] = refl
    turn-number number same k (t ∷ l) =
        ground (arith, same t, turn-number number same k l, turn-number number same (k - 1) l)

    -- What no step changes, no turn changes.
    pub turn-keeps :
        {X : Type 0} (f : S → X)
        → ((t : T) → f (advance t s).1 ≡ f s)
        → (k : ℕ) (l : List T) → f (turn advance rank k l s).1 ≡ f s
    unfolding turn
    turn-keeps f same k [] = refl
    turn-keeps f same k (t ∷ l) =
        ground (arith, same t, turn-keeps f same k l, turn-keeps f same (k - 1) l)

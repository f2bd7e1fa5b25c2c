-- ===== src/Machine/Monad.antt =====
-- Programs: C code that calls the system, may leave by `return` from main or `exit`, and leaves a
-- trace of its calls.
use mitosis_tests.Base.{ℕ, ◌+◌, ◌≡◌, Bool, true, false, Option, none, some, List, [], ◌∷◌}
use mitosis_tests.Machine.Events.{acquired, released, Resource, Event}

-- `env` is the state of the machine as this process meets it.
pub record Process (W : Type 0) : Type 0 where
  pub env : W
  pub trace : List Event

pub data Outcome (A : Type 0) : Type 0 where
  ok : A → Outcome A
  -- the process ends with this status
  ended : ℕ → Outcome A

abbrev pub Program : Type 0 → Type 0 → Type 0
Program W A = Process W → Outcome A × Process W

-- Code that neither ends the process nor makes a call that the trace shows.
abbrev pub Quiet : Type 0 → Type 0 → Type 0
Quiet W A = W → A × W

module _ {W A : Type 0} where
  abbrev pub pure : A → Program W A
  pure a s = (ok a, s)

  -- `exit(n)`, and `return n` in main
  abbrev pub exit : ℕ → Program W A
  exit n s = (ended n, s)

  abbrev pub quietly : Quiet W A → Program W A
  quietly f s = let (a, w) = f s.env in (ok a, record s { env = w })

  -- a call that the trace shows
  abbrev pub observed : Quiet W A → (A → Event) → Program W A
  observed f e s = let (a, w) = f s.env in (ok a, record { env = w; trace = e a ∷ s.trace })

-- Code that only changes the machine.
abbrev pub effect : {W : Type 0} → (W → W) → Program W (Unit {0})
effect f s = (ok tt, record s { env = f s.env })

infixl 5 ◌>>=◌ ◌>>◌
abbrev pub ◌>>=◌ : {W A B : Type 0} → Program W A → (A → Program W B) → Program W B
◌>>=◌ m f s = let (r, s') = m s in elim r [ ok a ↦ f a s' | ended n ↦ (ended n, s') ]

abbrev pub ◌>>◌ : {W A B : Type 0} → Program W A → Program W B → Program W B
m >> k = m >>= λ _. k

-- `if (b) { ... }`
abbrev pub when : {W : Type 0} → Bool → Program W (Unit {0}) → Program W (Unit {0})
when b m s = elim b [ true ↦ m s | false ↦ (ok tt, s) ]

-- The value of a pointer, where the code leaves by `m` at NULL or MAP_FAILED.
abbrev pub require : {W A : Type 0} → Option A → Program W A → Program W A
require found m s = elim found [ none ↦ m s | some a ↦ (ok a, s) ]

-- `if (p == MAP_FAILED) { ... } else { ... }`
abbrev pub either : {W A B : Type 0} → Option A → Program W B → (A → Program W B) → Program W B
either found m k s = elim found [ none ↦ m s | some a ↦ k a s ]

-- `if (b) { ... } else { ... }`
abbrev pub choose : {W A : Type 0} → Bool → Program W A → Program W A → Program W A
choose b m k s = elim b [ true ↦ m s | false ↦ k s ]

-- The status with which the process ends; `main` never falls through.
abbrev pub status_of : Outcome (Unit {0}) → ℕ
status_of (ok _) = 0
status_of (ended n) = n

abbrev pub status : {W : Type 0} → Program W (Unit {0}) → Process W → ℕ
status m s = status_of (m s).0

-- What the process has called when it ends, newest first.
abbrev pub calls : {W : Type 0} → Program W (Unit {0}) → Process W → List Event
calls m s = (m s).1.trace

-- A process that has made no call yet.
abbrev pub start : {W : Type 0} → W → Process W
start w = record { env = w; trace = [] }

-- A process has taken a resource `k` times more often than it has given it back.
abbrev pub Owes : {W : Type 0} → Resource → ℕ → Process W → Type 0
Owes r k s = acquired r s.trace ≡ released r s.trace + k

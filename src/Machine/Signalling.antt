-- ===== src/Machine/Signalling.antt =====
-- Signals: their handlers, accesses that they answer, and signals that a process sends to itself.
use mitosis_tests.Base.{ℕ, ◌≡◌, Option, some, List, if◌then◌else◌, is_neg, ℤ, pos}
use mitosis_tests.Machine.Events.{Fault, Signal, handling, acquire, release, refused, access}
use mitosis_tests.Machine.Monad.{Program, observed}
use mitosis_tests.Machine.Storage.{Prot, Memory}

-- The signals that a test sends to itself.
pub data Notice : Type 0 where
  usr1 usr2 alrm : Notice

pub record Signals (W : Type 0) : Type 0 where
  -- sigaction(signal, &sa, &old), with the handler that the test has for the signal
  pub sigaction : Signal → W → ℤ × W
  -- sigaction(signal, &old, NULL)
  pub restore : Signal → W → W
  -- `*p = v` and `*p` where the memory may be out of reach
  pub try_store : ℕ → ℕ → W → Option Fault × W
  pub try_load : ℕ → W → Option Fault × W
  -- kill(getpid(), signal), alarm(seconds) and usleep(useconds), with the signals that are delivered
  -- before the call returns, in order
  pub kill : Notice → W → List Notice × W
  pub alarm : ℕ → W → List Notice × W
  pub sleep : ℕ → W → List Notice × W

module _ {W : Type 0} ⦃signals : Signals W⦄ where
  abbrev pub sigaction : Signal → Program W ℤ
  sigaction sig =
      observed (signals.sigaction sig)
        (λ ret. if is_neg ret then refused else acquire (handling sig))

  abbrev pub restore : Signal → Program W (Unit {0})
  restore sig = observed (λ w. (tt, signals.restore sig w)) (λ _. release (handling sig))

  abbrev pub try_store : ℕ → ℕ → Program W (Option Fault)
  try_store a v = observed (signals.try_store a v) access

  abbrev pub try_load : ℕ → Program W (Option Fault)
  try_load a = observed (signals.try_load a) access

-- mprotect() succeeds; it changes no byte, and an access that a signal answers changes none.
pub record Guards {W : Type 0} (mem : Memory W) (signals : Signals W) (byte : W → ℕ → ℕ)
    : Type 0 where
  pub guard_answer : (a n : ℕ) (p : Prot) (w : W) → (mem.mprotect a n p w).0 ≡ pos 0
  pub guard_byte : (a n : ℕ) (p : Prot) (b : ℕ) (w : W) → byte (mem.mprotect a n p w).1 b ≡ byte w b
  pub store_fault :
      (a v : ℕ) (f : Fault) (b : ℕ) (w : W)
      → (signals.try_store a v w).0 ≡ some f
      → byte (signals.try_store a v w).1 b ≡ byte w b
  pub load_fault :
      (a : ℕ) (f : Fault) (b : ℕ) (w : W)
      → (signals.try_load a w).0 ≡ some f
      → byte (signals.try_load a w).1 b ≡ byte w b

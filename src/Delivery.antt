-- ===== src/Delivery.antt =====
-- test7.c: signals that a process sends to itself, and handlers that use its memory.
pub mod Waiting
pub mod Verdict
use mitosis_tests.Base.{
  ℕ, zero, suc, ◌+◌, Bool, true, false, not, ◌&&◌, Option, none, some, List, [], ◌∷◌, ◌++◌, ltb,
  ◌==◌, ◌!=◌, if◌then◌else◌, is_neg, is_positive,
}
use mitosis_tests.Machine.{
  Program, Quiet, pure, exit, quietly, ◌>>=◌, ◌>>◌, when, require, set_repl, get_repl, disable,
  Replication, malloc, free, effect, Memory, Fault, segv, bus, fault, sigusr1, sigusr2, sigalrm,
  Notice, usr1, usr2, alrm, Signals, sigaction, try_store,
}
use mitosis_tests.Loops.{copy_text, same_text}

-- the variables of the file; `none` is NULL
pub record Globals : Type 0 where
  pub signal_count : ℕ
  pub sigusr1_received : ℕ
  pub sigusr2_received : ℕ
  pub sigalrm_received : ℕ
  pub global_mem : Option ℕ

abbrev pub initial : Globals
initial = record {
  signal_count = 0;
  sigusr1_received = 0;
  sigusr2_received = 0;
  sigalrm_received = 0;
  global_mem = none;
}

-- "SignalTest", "OK" and "SignalTestOK"
abbrev pub letters : List ℕ
letters = b'S' ∷ b'i' ∷ b'g' ∷ b'n' ∷ b'a' ∷ b'l' ∷ b'T' ∷ b'e' ∷ b's' ∷ b't' ∷ []

abbrev pub signal_test : List ℕ
signal_test = letters ++ (0 ∷ [])

abbrev pub ok_text : List ℕ
ok_text = b'O' ∷ b'K' ∷ 0 ∷ []

abbrev pub signal_test_ok : List ℕ
signal_test_ok = letters ++ ok_text

module _ {W : Type 0} ⦃mem : Memory W⦄ where
  -- the handler of SIGALRM: strcat() writes behind the ten letters, which strcmp() has found
  unfoldable pub sigalrm_handler : Globals → Quiet W Globals
  sigalrm_handler g w = elim g.global_mem [
    | none ↦ (record g { sigalrm_received = 1 }, w)
    | some a ↦
        let (same, w1) = same_text a signal_test w in
        (record g { sigalrm_received = 1 }, if same then copy_text (a + 10) ok_text w1 else w1)
  ]

  -- the handlers that are installed
  unfoldable pub sighandler : Notice → Globals → Quiet W Globals
  unfolding sigalrm_handler
  sighandler usr1 g w = (record g { signal_count = g.signal_count + 1; sigusr1_received = 1 }, w)
  sighandler usr2 g w = (record g { signal_count = g.signal_count + 1; sigusr2_received = 2 }, w)
  sighandler alrm g w = sigalrm_handler g w

  -- Signals are handled in the order in which they are delivered.
  unfoldable pub deliver : List Notice → Globals → Quiet W Globals
  deliver [] g w = (g, w)
  deliver (sig ∷ sigs) g w = let (g', w') = sighandler sig g w in deliver sigs g' w'

  module _ ⦃signals : Signals W⦄ where
    -- a call during which signals may be delivered
    abbrev pub interrupted : (W → List Notice × W) → Globals → Quiet W Globals
    interrupted call g w = let (sigs, w') = call w in deliver sigs g w'

    -- `while (!sigalrm_received && timeout < 30) { usleep(100000); timeout++; }`, on fuel: the timeout and
    -- the variables after it
    unfoldable pub await : ℕ → ℕ → Globals → Quiet W (ℕ × Globals)
    await zero timeout g w = ((timeout, g), w)
    await (suc fuel) timeout g w =
        let (g', w') = interrupted (signals.sleep 100000) g w in
        let rest = await fuel (timeout + 1) g' w' in
        if (g.sigalrm_received == 0) && ltb timeout 30 then rest else ((timeout, g), w)

    -- "Test 1: Basic signal delivery"
    unfoldable pub send : Globals → Program W Globals
    send g = do
      ret ← sigaction sigusr1
      when (is_neg ret) (exit 1)
      ret ← sigaction sigusr2
      when (is_neg ret) (exit 1)
      g ← quietly (interrupted (signals.kill usr1) g)
      g ← quietly (interrupted (signals.sleep 10000) g)
      when (g.sigusr1_received == 0) (exit 1)
      g ← quietly (interrupted (signals.kill usr2) g)
      g ← quietly (interrupted (signals.sleep 10000) g)
      when (g.sigusr2_received == 0) (exit 1)
      when (g.signal_count != 2) (exit 1)
      pure g

    -- "Test 2: Allocate memory and access it in signal handler", on the block that malloc() has granted
    unfoldable pub ring : ℕ → Globals → Program W Globals
    ring a g = do
      let g = record g { global_mem = some a }
      effect (copy_text a signal_test)
      ret ← sigaction sigalrm
      when (is_neg ret) (do free a; exit 1)
      let g = record g { sigalrm_received = 0 }
      g ← quietly (interrupted (signals.alarm 1) g)
      (timeout, g) ← quietly (await 30 0 g)
      when (g.sigalrm_received == 0) (do free a; exit 1)
      same ← quietly (same_text a signal_test_ok)
      when (not same) (do free a; exit 1)
      pure g

    module _ ⦃sys : Replication W⦄ where
      -- the write to address 0: a signal that has no handler ends the process, with the status that a
      -- shell shows for it
      unfoldable pub null_store : ℕ → Option Fault → Program W (Unit {0})
      null_store a none = do free a; exit 1
      null_store a (some segv) = pure tt
      null_store a (some bus) = exit (128 + 7)

      -- "Test 3: SIGSEGV handling", and the end
      unfoldable pub finish : ℕ → Program W (Unit {0})
      unfolding null_store
      finish a = do
        ret ← sigaction (fault segv)
        when (is_neg ret) (do free a; exit 1)
        found ← try_store 0 42
        null_store a found
        ret ← get_repl
        when (not (is_positive ret)) (do free a; exit 1)
        free a
        disable
        exit 0

      unfoldable pub main : Program W (Unit {0})
      main = do
        ret ← set_repl 1
        when (is_neg ret) (exit 1)
        g ← send initial
        found ← malloc 4096
        a ← require found (exit 1)
        ring a g
        finish a

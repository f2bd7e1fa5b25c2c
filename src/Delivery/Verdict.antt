-- ===== src/Delivery/Verdict.antt =====
-- What the verdict of test7.c is on a system that delivers signals.
use mitosis_tests.Base.{
  ℕ, zero, suc, ◌+◌, ◌≤◌, ◌<◌, ◌≡◌, refl, sym, subst, ◌∙◌, ◌⊎◌, ℕ-cases, Bool, true, false, not,
  ◌&&◌, ap, Option, none, some, inl, inr, List, [], ◌∷◌, arith, is_neg, is_positive,
}
use mitosis_tests.Machine.{
  Event, set, get, refused, access, bus, Signal, sigusr1, sigusr2, sigalrm, Process, status, calls,
  start, ok, ended, Outcome, Replication, Memory, Notice, usr1, usr2, alrm, Signals, Remembers,
}
use mitosis_tests.Loops.{copy_text, same_text}
use mitosis_tests.Loops.Texts.{
  Holds, Holds-kept, same_text-byte, same_text-true, copy_text-Holds, copy_text-append,
}
use mitosis_tests.Delivery.{
  Globals, initial, letters, signal_test, ok_text, signal_test_ok, sighandler, sigalrm_handler,
  deliver, interrupted, await, send, ring, null_store, finish, main,
}

-- No SET answered an error, every GET a positive mask, every request was granted, and SIGSEGV has
-- answered the write to address 0.
abbrev pub is_served : List Event → Bool
is_served [] = true
is_served (set n a ∷ t) = not (is_neg a) && is_served t
is_served (get a ∷ t) = is_positive a && is_served t
is_served (refused ∷ t) = false
is_served (access none ∷ t) = false
is_served (access (some bus) ∷ t) = false
is_served (_ ∷ t) = is_served t

-- kill() delivers its signal before it returns; usleep() and alarm() deliver SIGALRM at most. `left` is
-- the number of times that 0.1 seconds can be slept before a pending alarm rings, and `none` where no
-- alarm is pending. An alarm that alarm(1) sets rings before it returns, or is pending for less than 30
-- times 0.1 seconds. These calls, and sigaction(), change no byte.
pub record Delivers {W : Type 0} (signals : Signals W) (left : W → Option ℕ) (byte : W → ℕ → ℕ)
    : Type 0 where
  pub kill_sends : (sig : Notice) (w : W) → (signals.kill sig w).0 ≡ sig ∷ []
  pub sleep_sends :
      (t : ℕ) (w : W) → ((signals.sleep t w).0 ≡ []) ⊎ ((signals.sleep t w).0 ≡ alrm ∷ [])
  pub alarm_sends :
      (t : ℕ) (w : W) → ((signals.alarm t w).0 ≡ []) ⊎ ((signals.alarm t w).0 ≡ alrm ∷ [])
  pub alarm_left :
      (w : W)
      → (signals.alarm 1 w).0 ≡ []
      → (k : ℕ) × (k < 30) × (left (signals.alarm 1 w).1 ≡ some k)
  pub sleep_rings : (w : W) → left w ≡ some 0 → (signals.sleep 100000 w).0 ≡ alrm ∷ []
  pub sleep_left :
      (k : ℕ) (w : W)
      → left w ≡ some (suc k)
      → (signals.sleep 100000 w).0 ≡ []
      → left (signals.sleep 100000 w).1 ≡ some k
  pub sleep_byte : (t b : ℕ) (w : W) → byte (signals.sleep t w).1 b ≡ byte w b
  pub alarm_byte : (t b : ℕ) (w : W) → byte (signals.alarm t w).1 b ≡ byte w b
  pub sigaction_byte :
      (sig : Signal) (b : ℕ) (w : W) → byte (signals.sigaction sig w).1 b ≡ byte w b

-- A part that ends the process only where something was not as it has to be.
abbrev Blames : {W A : Type 0} → Outcome A × Process W → Type 0
Blames (ok a, s) = Unit
Blames (ended n, s) = is_served s.trace ≡ false

module _ {W : Type 0} ⦃mem : Memory W⦄ {byte word : W → ℕ → ℕ} (r : Remembers mem byte word) where
  -- Before and after the handling of SIGALRM.
  abbrev IsArmed : ℕ → Globals × W → Type 0
  IsArmed a (g, w) = (g.global_mem ≡ some a) × (g.sigalrm_received ≡ 0) × Holds r a signal_test w

  abbrev IsRung : ℕ → Globals × W → Type 0
  IsRung a (g, w) = (g.sigalrm_received ≡ 1) × Holds r a signal_test_ok w

  -- The handler of SIGALRM finds "SignalTest" in memory and appends "OK".
  deliver-IsRung :
      (a : ℕ) (g : Globals) (w : W) → IsArmed a (g, w) → IsRung a (deliver (alrm ∷ []) g w)
  unfolding deliver sighandler sigalrm_handler
  deliver-IsRung a g w (e, _, h) =
      let w1 = (same_text a signal_test w).1 in
      let kept = Holds-kept r a signal_test w w1 (λ b. same_text-byte r a b signal_test w) h in
      let appended = copy_text-append r a letters (0 ∷ []) ok_text w1 refl kept in
      ground (arith, e, same_text-true r a signal_test w h, appended)

  module _ ⦃signals : Signals W⦄ {left : W → Option ℕ} (d : Delivers signals left byte) where
    -- One round of the waiting loop: the alarm rings, or there is less time left.
    round-IsRung :
        (a k : ℕ) (g : Globals) (w : W)
        → IsArmed a (g, w)
        → left w ≡ some k
        → let (g', w') = interrupted (signals.sleep 100000) g w in
          IsRung a (g', w') ⊎ (IsArmed a (g', w') × ((j : ℕ) × (suc j ≡ k) × (left w' ≡ some j)))
    unfolding deliver
    round-IsRung a k g w (e, zero_received, h) pending =
        let w1 = (signals.sleep 100000 w).1 in
        let kept = Holds-kept r a signal_test w w1 (λ b. d.sleep_byte 100000 b w) h in
        let rung = deliver-IsRung a g w1 (e, zero_received, kept) in
        elim (d.sleep_sends 100000 w) [
          | inr sent ↦ rw sent (inl rung)
          | inl quiet ↦ elim (ℕ-cases k) [
            | inl due ↦ absurd (ground (arith, quiet, d.sleep_rings w (pending ∙ ap some due)))
            | inr (j, more) ↦
                let next = d.sleep_left j w (pending ∙ ap some more) quiet in
                rw quiet (inr ((e, zero_received, kept), (j, sym more, next)))
          ]
        ]

    await-next :
        (fuel timeout : ℕ) (g : Globals) (w : W)
        → g.sigalrm_received ≡ 0
        → timeout < 30
        → let (g', w') = interrupted (signals.sleep 100000) g w in
          await (suc fuel) timeout g w ≡ await fuel (timeout + 1) g' w'
    unfolding await
    await-next fuel timeout g w e lt = ground (arith, e)

    await-last :
        (fuel timeout : ℕ) (g : Globals) (w : W)
        → g.sigalrm_received ≡ 1
        → await fuel timeout g w ≡ ((timeout, g), w)
    unfolding await
    await-last zero timeout g w e = refl
    await-last (suc fuel) timeout g w e = ground (arith, e)

    -- Enough rounds are left for the alarm to ring.
    await-IsRung :
        (fuel timeout a k : ℕ) (g : Globals) (w : W)
        → IsArmed a (g, w)
        → left w ≡ some k
        → k + timeout < 30
        → 30 ≤ fuel + timeout
        → let ((n, g'), w') = await fuel timeout g w in IsRung a (g', w')
    await-IsRung zero timeout a k g w s pending soon enough = absurd (omega arith)
    await-IsRung (suc fuel) timeout a k g w s pending soon enough =
        let (g', w') = interrupted (signals.sleep 100000) g w in
        let next = await-next fuel timeout g w s.1 (omega arith) in
        elim (round-IsRung a k g w s pending) [
          | inl rung ↦
              subst (λ x. IsRung a (x.0.1, x.1))
                (sym (next ∙ await-last fuel (timeout + 1) g' w' rung.0)) rung
          | inr (still, (j, less, pending')) ↦
              subst (λ x. IsRung a (x.0.1, x.1)) (sym next)
                (await-IsRung fuel (timeout + 1) a j g' w' still pending' (omega arith)
                  (omega arith))
        ]

    send-Blames : (s : Process W) → Blames (send initial s)
    unfolding send deliver sighandler sigalrm_handler
    send-Blames s =
        let w1 = (signals.sigaction sigusr1 s.env).1 in
        let w2 = (signals.sigaction sigusr2 w1).1 in
        let w3 = (signals.kill usr1 w2).1 in
        let w4 = (signals.sleep 10000 w3).1 in
        let w5 = (signals.kill usr2 w4).1 in
        ground (
          arith,
          d.kill_sends usr1 w2,
          d.sleep_sends 10000 w3,
          d.kill_sends usr2 w4,
          d.sleep_sends 10000 w5,
        )

    -- The alarm is set, and rings at once or in the waiting loop.
    wait-IsRung :
        (a : ℕ) (g : Globals) (w : W)
        → IsArmed a (g, w)
        → let (g', w') = interrupted (signals.alarm 1) g w in
          let ((n, g''), w'') = await 30 0 g' w' in IsRung a (g'', w'')
    unfolding deliver
    wait-IsRung a g w (e, zero_received, h) =
        let w1 = (signals.alarm 1 w).1 in
        let kept = Holds-kept r a signal_test w w1 (λ b. d.alarm_byte 1 b w) h in
        let rung = deliver-IsRung a g w1 (e, zero_received, kept) in
        elim (d.alarm_sends 1 w) [
          | inr sent ↦ rw sent (
              let (g', w') = deliver (alrm ∷ []) g w1 in
              subst (λ x. IsRung a (x.0.1, x.1)) (sym (await-last 30 0 g' w' rung.0)) rung)
          | inl quiet ↦
              let (k, soon, pending) = d.alarm_left w quiet in
              rw quiet (
                await-IsRung 30 0 a k g w1 (e, zero_received, kept) pending (omega arith)
                  (omega arith))
        ]

    ring-Blames : (a : ℕ) (g : Globals) (s : Process W) → Blames (ring a g s)
    unfolding ring
    ring-Blames a g s =
        let g1 : Globals = record g { global_mem = some a; sigalrm_received = 0 } in
        let w1 = copy_text a signal_test s.env in
        let w2 = (signals.sigaction sigalrm w1).1 in
        let held = copy_text-Holds r a signal_test s.env refl in
        let kept = Holds-kept r a signal_test w1 w2 (λ b. d.sigaction_byte sigalrm b w1) held in
        let (rang, there) = wait-IsRung a g1 w2 (refl, refl, kept) in
        let (g3, w3) = interrupted (signals.alarm 1) g1 w2 in
        let ((n, g4), w4) = await 30 0 g3 w3 in
        ground (arith, rang, same_text-true r a signal_test_ok w4 there)

    pub delivery-passes :
        ⦃sys : Replication W⦄ (w : W)
        → is_served (calls main (start w)) ≡ true
        → status main (start w) ≡ 0
    unfolding main finish null_store
    delivery-passes w served = grind (arith, send-Blames, ring-Blames)

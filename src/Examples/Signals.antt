-- ===== src/Examples/Signals.antt =====
-- test7.c, test9.c and test32.c on the small machine, where a signal answers every forbidden access.
use mitosis_tests.Base.{
  ℕ, zero, suc, ◌≡◌, ◌≢◌, ◌≤◌, ◌⊎◌, refl, true, Option, none, some, inl, List, [], ◌∷◌, arith, pos,
}
use mitosis_tests.Machine.{Signals, Notice, alrm, segv, Guards, status, calls, start}
use mitosis_tests.Examples.Kernel.{Demo, off, steady, memory, demo_memory, demo_nodes}
use mitosis_tests.Loops.{copy_text, same_text}
use mitosis_tests.Trapping
use mitosis_tests.Trapping.Verdict.{is_guarded, trapped, escaped, trapping-passes_only}
use mitosis_tests.Protection
use mitosis_tests.Protection.Verdict
use mitosis_tests.Delivery
use mitosis_tests.Delivery.Verdict.{Delivers, is_served, delivery-passes}
use mitosis_tests.Delivery.Waiting.{await-stops}

-- The clock is 0 where no alarm is set; an alarm rings at the tenth sleep after it was set.
abbrev tick : Demo → List Notice × Demo
tick d = elim d.clock [
  | zero ↦ ([], d)
  | suc zero ↦ (alrm ∷ [], record d { clock = 0 })
  | suc (suc k) ↦ ([], record d { clock = suc k })
]

-- the sleeps before the alarm rings
abbrev left : Demo → Option ℕ
left d = elim d.clock [ zero ↦ none | suc k ↦ some k ]

instance abbrev pub demo_signals : Signals Demo
demo_signals = record {
  sigaction = λ sig d. (pos 0, d);
  restore = λ sig d. d;
  try_store = λ a v d. (some segv, d);
  try_load = λ a d. (some segv, d);
  kill = λ sig d. (sig ∷ [], d);
  alarm = λ t d. ([], record d { clock = 10 });
  sleep = λ t d. tick d;
}

demo-Guards : Guards demo_memory demo_signals (λ d. d.byte)
demo-Guards = record {
  guard_answer = λ a n p d. refl;
  guard_byte = λ a n p b d. refl;
  store_fault = λ a v f b d e. refl;
  load_fault = λ a f b d e. refl;
}

demo-Delivers : Delivers demo_signals left (λ d. d.byte)
demo-Delivers = record {
  kill_sends = λ sig d. refl;
  sleep_sends = λ t d. ground arith;
  alarm_sends = λ t d. inl refl;
  alarm_left = λ d e. (9, omega arith, refl);
  sleep_rings = λ d e. ground arith;
  sleep_left = λ k d e quiet. ground arith;
  sleep_byte = λ t b d. ground arith;
  alarm_byte = λ t b d. refl;
  sigaction_byte = λ sig b d. refl;
}

guarded : is_guarded (calls (Trapping.main ⦃sys = steady⦄) (start off)) ≡ true
unfolding Trapping.main Trapping.install Trapping.run Trapping.unmapped Trapping.out_of_reach
    Trapping.read_only Trapping.jump Trapping.handler
guarded = refl

passed : status (Trapping.main ⦃sys = steady⦄) (start off) ≡ 0
unfolding Trapping.main Trapping.install Trapping.run Trapping.unmapped Trapping.out_of_reach
    Trapping.read_only Trapping.jump Trapping.handler
passed = refl

trapping-passes_only_example :
    let t = calls (Trapping.main ⦃sys = steady⦄) (start off) in (trapped t ≡ 3) × (escaped t ≡ 0)
trapping-passes_only_example = trapping-passes_only ⦃sys = steady⦄ off refl (omega arith) passed

protected :
    Protection.Verdict.is_guarded (calls (Protection.main ⦃sys = steady⦄) (start off)) ≡ true
unfolding Protection.main Protection.read_only Protection.write_trap Protection.read_trap
    Protection.jump Protection.finish copy_text same_text
protected = refl

protection-passes_example : status (Protection.main ⦃sys = steady⦄) (start off) ≡ 0
protection-passes_example =
    Protection.Verdict.protection-passes ⦃sys = steady⦄ memory demo-Guards off protected

served : is_served (calls (Delivery.main ⦃sys = steady⦄) (start off)) ≡ true
unfolding Delivery.main Delivery.send Delivery.ring Delivery.null_store Delivery.finish
    Delivery.await Delivery.deliver Delivery.sighandler Delivery.sigalrm_handler copy_text same_text
served = refl

delivery-passes_example : status (Delivery.main ⦃sys = steady⦄) (start off) ≡ 0
delivery-passes_example = delivery-passes memory demo-Delivers ⦃sys = steady⦄ off served

-- the waiting loop when the alarm has been set
abbrev waiting : (ℕ × Delivery.Globals) × Demo
waiting = Delivery.await 40 0 Delivery.initial (record off { clock = 10 })

await-stops_example :
    (waiting ≡ Delivery.await 30 0 Delivery.initial (record off { clock = 10 }))
    × (waiting.0.0 ≤ 30)
    × ((waiting.0.1.sigalrm_received ≢ 0) ⊎ (waiting.0.0 ≡ 30))
await-stops_example = await-stops 40 Delivery.initial (record off { clock = 10 }) (omega arith)

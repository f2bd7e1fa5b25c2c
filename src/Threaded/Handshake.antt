-- ===== src/Threaded/Handshake.antt =====
-- How `main` and `thread_func` of test3.c meet: through `thread_running`, in any order of their steps.
use mitosis_tests.Base.{Bool, true, false, ◌≡◌, refl, ◌≢◌, ◌⊎◌, arith}

-- `thread_func`: before it sets the flag, at the test of its loop, asleep in the loop, after it
pub data ThreadPlace : Type 0 where
  absent entered testing asleep returned : ThreadPlace

-- `main`: before the creation, at the test of its waiting loop, asleep there, at the calls between
-- the loop and `thread_running = 0`, at the join, after it, or having left where the creation failed
pub data MainPlace : Type 0 where
  single waiting resting working joining joined left : MainPlace

pub record System : Type 0 where
  pub thread_running : Bool
  pub main : MainPlace
  pub thread : ThreadPlace

abbrev pub init : System
init = record { thread_running = false; main = single; thread = absent }

-- One step of the thread, which has none to make before its creation and after its end.
unfoldable pub thread_step : System → System
thread_step s = elim s.thread [
  | absent ↦ s
  | entered ↦ record s { thread_running = true; thread = testing }
  | testing ↦ elim s.thread_running [
    | true ↦ record s { thread = asleep }
    | false ↦ record s { thread = returned }
  ]
  | asleep ↦ record s { thread = testing }
  | returned ↦ s
]

pub data Step (s : System) : System → Type 0 where
  create : s.main ≡ single → Step s (record s { main = waiting; thread = entered })
  refuse : s.main ≡ single → Step s (record s { main = left })
  rest : s.main ≡ waiting → s.thread_running ≡ false → Step s (record s { main = resting })
  wake : s.main ≡ resting → Step s (record s { main = waiting })
  go_on : s.main ≡ waiting → s.thread_running ≡ true → Step s (record s { main = working })
  -- after the calls, or at the first of them that fails
  stop : s.main ≡ working → Step s (record s { thread_running = false; main = joining })
  join : s.main ≡ joining → s.thread ≡ returned → Step s (record s { main = joined })
  thread : s.thread ≢ absent → s.thread ≢ returned → Step s (thread_step s)

pub data Reach : System → Type 0 where
  here : Reach init
  later : {s t : System} → Reach s → Step s t → Reach t

-- the thread is in its loop
abbrev pub is_looping : ThreadPlace → Bool
is_looping testing = true
is_looping asleep = true
is_looping _ = false

-- Where the thread may be, and what the flag is, for each place of `main`.
abbrev pub Inv : System → Type 0
Inv s = elim s.main [
  | single ↦ (s.thread ≡ absent) × (s.thread_running ≡ false)
  | left ↦ s.thread ≡ absent
  | waiting ↦
      ((s.thread ≡ entered) × (s.thread_running ≡ false))
      ⊎ ((is_looping s.thread ≡ true) × (s.thread_running ≡ true))
  | resting ↦
      ((s.thread ≡ entered) × (s.thread_running ≡ false))
      ⊎ ((is_looping s.thread ≡ true) × (s.thread_running ≡ true))
  | working ↦ (is_looping s.thread ≡ true) × (s.thread_running ≡ true)
  | joining ↦ ((is_looping s.thread ≡ true) ⊎ (s.thread ≡ returned)) × (s.thread_running ≡ false)
  | joined ↦ (s.thread ≡ returned) × (s.thread_running ≡ false)
]

Step-Inv : {s t : System} → Step s t → Inv s → Inv t
unfolding thread_step
Step-Inv {s} (create e) h = ground arith
Step-Inv {s} (refuse e) h = ground arith
Step-Inv {s} (rest e f) h = ground arith
Step-Inv {s} (wake e) h = ground arith
Step-Inv {s} (go_on e f) h = ground arith
Step-Inv {s} (stop e) h = ground arith
Step-Inv {s} (join e f) h = ground arith
Step-Inv {s} (thread e f) h = ground arith

pub Reach-Inv : {s : System} → Reach s → Inv s
Reach-Inv here = (refl, refl)
Reach-Inv (later r st) = Step-Inv st (Reach-Inv r)

-- ===== src/Threaded/Joining.antt =====
-- The waiting loop and the join of test3.c come to an end.
use mitosis_tests.Base.{Bool, true, false, not, ◌≡◌, arith}
use mitosis_tests.Threaded.Handshake.{
  System, working, waiting, joining, returned, thread_step, Reach, Reach-Inv, is_looping,
}

-- `main` would wait for the thread: in its loop for the flag, at the join for the end.
abbrev pub is_blocked : System → Bool
is_blocked s = elim s.main [
  | waiting ↦ not s.thread_running
  | joining ↦ elim s.thread [ returned ↦ false | _ ↦ true ]
  | _ ↦ false
]

-- In every reachable state in which `main` of test3.c makes the calls between its waiting loop and
-- the clearing of the flag, the thread is in its loop and the flag is set: the process has two threads.
working-is_looping :
    {s : System}
    → Reach s
    → s.main ≡ working
    → (is_looping s.thread ≡ true) × (s.thread_running ≡ true)
working-is_looping r e = ground (arith, Reach-Inv r)

-- From every reachable state, two steps of the thread are enough for `main` of test3.c not to be held up
-- at the test of its waiting loop or at the join.
pub handshake-ends : {s : System} → Reach s → is_blocked (thread_step (thread_step s)) ≡ false
unfolding thread_step
handshake-ends r = ground (arith, Reach-Inv r)

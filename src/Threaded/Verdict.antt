-- ===== src/Threaded/Verdict.antt =====
-- What the verdict of test3.c means.
use mitosis_tests.Base.{ℕ, ◌≡◌, true, false, List, [], ◌∷◌, arith, is_neg, is_nonzero}
use mitosis_tests.Machine.{
  Event, set, get, Process, Outcome, ok, ended, status, calls, start, Replication, Tasks, Threads,
}
use mitosis_tests.Threaded.Calls.{await_thread, alone, together, main}

-- The calls of the part before the thread, newest first, before which there was `t`.
abbrev pub IsAlone : List Event → List Event → Type 0
IsAlone t (set n3 a3 ∷ get a2 ∷ set n1 a1 ∷ t') =
    (n1 ≡ 1)
    × (is_neg a1 ≡ false)
    × (is_nonzero a2 ≡ true)
    × (n3 ≡ 0)
    × (is_neg a3 ≡ false)
    × (t' ≡ t)
IsAlone t _ = ⊥

-- The calls with the thread, and those before them.
abbrev pub IsTogether : (List Event → Type 0) → List Event → Type 0
IsTogether Before (set n4 a4 ∷ set n3 a3 ∷ get a2 ∷ set n1 a1 ∷ t) =
    (n1 ≡ 1)
    × (is_neg a1 ≡ false)
    × (is_nonzero a2 ≡ true)
    × (n3 ≡ 1)
    × (is_neg a3 ≡ false)
    × (n4 ≡ 0)
    × (is_neg a4 ≡ false)
    × Before t
IsTogether Before _ = ⊥

-- All calls: those of the two parts, and replication on and off.
abbrev pub IsThreeCycles : List Event → Type 0
IsThreeCycles (set n2 a2 ∷ set n1 a1 ∷ t) =
    (n1 ≡ 1) × (is_neg a1 ≡ false) × (n2 ≡ 0) × IsTogether (IsAlone []) t
IsThreeCycles _ = ⊥

-- Whether a part goes on or ends the process.
abbrev GoesOn : Outcome (Unit {0}) → Type 0 → Type 0
GoesOn (ok a) P = P
GoesOn (ended n) P = n ≡ 1

module _ {W : Type 0} ⦃sys : Replication W⦄ ⦃tasks : Tasks W⦄ ⦃threads : Threads W⦄ where
  alone_lem : (s : Process W) → GoesOn (alone s).0 (IsAlone s.trace (alone s).1.trace)
  unfolding alone
  alone_lem s = ground arith

  together_lem :
      (P : List Event → Type 0) (s : Process W)
      → P s.trace
      → GoesOn (together s).0 (IsTogether P (together s).1.trace)
  unfolding together
  together_lem P s h = ground arith

  -- Whatever the system answers, test3.c passes only if its calls of prctl were, in this order: SET 1,
  -- GET with an answer that is not 0, SET 0; with the thread SET 1, GET with an answer that is not 0, SET
  -- 1 again, SET 0; without it SET 1 and SET 0, where no SET but the last answered an error.
  threaded-passes_only :
      (rounds : ℕ) (w : W)
      → status (main rounds) (start w) ≡ 0
      → IsThreeCycles (calls (main rounds) (start w))
  unfolding main
  threaded-passes_only rounds w h =
      let s1 = (alone (start w)).1 in
      let s2 : Process W = record s1 { env = await_thread rounds s1.env } in
      ground (arith, alone_lem (start w), together_lem (IsAlone []) s2)

-- ===== src/Machine/Pool/Counts.antt =====
-- What threads count in memory that they share, whatever their order.
use mitosis_tests.Base.{
  ℕ, suc, ◌+◌, ◌-◌, ◌≤◌, ◌≡◌, subst, ◌≢◌, Bool, true, ◌||◌, List, [], ◌∷◌, ◌==◌, inl, inr,
  Bool-cases, arith,
}
use mitosis_tests.Machine.Pool.{total, turn, needed, crew}
use mitosis_tests.Machine.Pool.Runs.{Progresses, crew-joins}

module _ {T : Type 0} where
  abbrev pub All : (T → Type 0) → List T → Type 0
  All G [] = Unit
  All G (t ∷ l) = G t × All G l

module _ {S T : Type 0} (advance : T → S → T × S) (rank : T → ℕ) (G : T → Type 0) (weight : T → ℕ)
    (Q : ℕ → S → Type 0) where
  -- A step of a thread with `G` keeps `G`, and `Q` of its weight and any weight of the others.
  abbrev pub IsLocal : Type 0
  IsLocal =
      (t : T) (s : S) (m : ℕ)
      → rank t ≢ 0
      → G t
      → Q (weight t + m) s
      → G (advance t s).0 × Q (weight (advance t s).0 + m) (advance t s).1

  Holds : ℕ → List T × S → Type 0
  Holds m (l, s) = All G l × Q (total weight l + m) s

  Holds-cons :
      (t : T) (l : List T) (s : S) (m : ℕ) → G t → Holds (weight t + m) (l, s) → Holds m (t ∷ l, s)
  unfolding Holds
  Holds-cons t l s m g h =
      let e : total weight l + (weight t + m) ≡ weight t + total weight l + m = omega arith in
      ((g, h.0), subst (λ n. Q n s) e h.1)

  Holds-head : (t : T) (l : List T) (s : S) (m : ℕ) → Holds m (t ∷ l, s) → G t
  unfolding Holds
  Holds-head t l s m h = h.0.0

  Holds-tail :
      (t : T) (l : List T) (s : S) (m : ℕ) → Holds m (t ∷ l, s) → Holds (weight t + m) (l, s)
  unfolding Holds
  Holds-tail t l s m h =
      let e : weight t + total weight l + m ≡ total weight l + (weight t + m) = omega arith in
      (h.0.1, subst (λ n. Q n s) e h.1)

  Holds-advance :
      IsLocal
      → (t : T) (l : List T) (s : S) (m : ℕ) → rank t ≢ 0
      → Holds m (t ∷ l, s)
      → Holds m ((advance t s).0 ∷ l, (advance t s).1)
  unfolding Holds
  Holds-advance local t l s m running h =
      let before : weight t + total weight l + m ≡ weight t + (total weight l + m) = omega arith in
      let moved = (advance t s).0 in
      let after : weight moved + (total weight l + m) ≡ weight moved + total weight l + m =
        omega arith in
      let step = local t s (total weight l + m) running h.0.0 (subst (λ n. Q n s) before h.1) in
      ((step.0, h.0.1), subst (λ n. Q n (advance t s).1) after step.1)

  turn-Holds :
      IsLocal
      → (k : ℕ) (l : List T) (s : S) (m : ℕ) → Holds m (l, s)
      → Holds m (turn advance rank k l s)
  unfolding turn
  turn-Holds local k [] s m h = h
  turn-Holds local k (t ∷ l) s m h =
      let g : G t = Holds-head t l s m h in
      elim (Bool-cases (rank t == 0)) [
        | inl ended ↦
            rw (turn, ended)
              (Holds-cons t _ _ m g (turn-Holds local k l s (weight t + m) (Holds-tail t l s m h)))
        | inr running ↦ elim (Bool-cases ((k == 0) || (total rank l == 0))) [
          | inl here ↦ rw (turn, running, here) (Holds-advance local t l s m (ground arith) h)
          | inr later ↦
              rw (turn, running, later)
                (Holds-cons t _ _ m g
                  (turn-Holds local (k - 1) l s (weight t + m) (Holds-tail t l s m h)))
        ]
      ]

  module _ (create : S → Bool × S) (spawn : ℕ → T) (cost : ℕ → ℕ) where
    -- A creation gives the new thread `G`, and its weight takes the place of a part of the cost.
    abbrev pub IsPaid : Type 0
    IsPaid =
        (left m : ℕ) (s : S)
        → (create s).0 ≡ true
        → Q (cost (suc left) + m) s
        → G (spawn left) × Q (weight (spawn left) + (cost left + m)) (create s).1

    -- Threads that are created one by one, run in any order and are joined have all ended with `G`, and
    -- `Q` of their weight holds in the end.
    pub crew-counts :
        Progresses advance rank
        → IsLocal
        → IsPaid
        → (f : ℕ) (ks : List ℕ) (left : ℕ) (s : S) → needed rank spawn left ≤ f
        → Q (cost left) s
        → let c = crew advance rank create spawn f ks left [] s in
          c.created ≡ true
          → (total rank c.threads ≡ 0)
            × All G c.threads
            × Q (total weight c.threads + cost 0) c.shared
    unfolding Holds
    crew-counts progress local paid f ks left s enough q done =
        let c = crew advance rank create spawn f ks left [] s in
        let P : ℕ → List T → S → Type 0 = λ n l s'. Holds (cost n) (l, s') in
        let start : Holds (cost left) ([], s) =
          let e : cost left ≡ 0 + cost left = omega arith in (tt, subst (λ n. Q n s) e q) in
        let made =
          λ (n : ℕ) (l : List T) (s' : S) (h : P (suc n) l s') (good : (create s').0 ≡ true).
            let e : total weight l + cost (suc n) ≡ cost (suc n) + total weight l = omega arith in
            let e' : weight (spawn n) + (cost n + total weight l)
                ≡ weight (spawn n) + total weight l + cost n =
              omega arith in
            let new = paid n (total weight l) s' good (subst (λ k. Q k s') e h.1) in
            let held : P n (spawn n ∷ l) (create s').1 =
              ((new.0, h.0), subst (λ k. Q k (create s').1) e' new.1) in
            held in
        let joined =
          crew-joins advance rank create spawn progress P
            (λ n k l s' h. turn-Holds local k l s' (cost n) h) made f ks left [] s (omega arith)
            start done in
        (joined.0, joined.1.0, joined.1.1)

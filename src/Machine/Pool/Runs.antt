-- ===== src/Machine/Pool/Runs.antt =====
-- Every schedule runs the threads to their end, and keeps what their steps keep.
use mitosis_tests.Base.{
  ℕ, zero, suc, ◌+◌, ◌-◌, ◌≤◌, ◌<◌, ◌≡◌, ◌≢◌, refl, Bool, true, false, ◌||◌, List, ◌∷◌, ◌==◌, inl,
  inr, Bool-cases, arith,
}
use mitosis_tests.Machine.Pool.{head, tail, total, turn, needed, crew}
use mitosis_tests.Machine.Pool.Turns.{turn-falls}

module _ {S T : Type 0} (advance : T → S → T × S) (rank : T → ℕ) where
  -- A step brings a thread nearer to its end.
  abbrev pub Progresses : Type 0
  Progresses = (t : T) (s : S) → rank t ≢ 0 → rank (advance t s).0 < rank t

  turn-shrinks :
      Progresses
      → (k : ℕ) (l : List T) (s : S) → total rank (turn advance rank k l s).0 ≤ total rank l - 1
  turn-shrinks progress k l s = turn-falls advance rank s (λ t live. progress t s live) k l

  -- A property of the threads and what they share that every step of one thread keeps.
  abbrev pub IsKept : (List T → S → Type 0) → Type 0
  IsKept P =
      (k : ℕ) (l : List T) (s : S)
      → P l s
      → P (turn advance rank k l s).0 (turn advance rank k l s).1

  module _ (create : S → Bool × S) (spawn : ℕ → T) where
    -- The three steps of a parent that has threads left to create.
    module _ (f left : ℕ) (ks : List ℕ) (l : List T) (s : S) where
      crew-create :
          (head ks == 0) || (total rank l == 0) ≡ true
          → (create s).0 ≡ true
          → crew advance rank create spawn (suc f) ks (suc left) l s
            ≡ crew advance rank create spawn f (tail ks) left (spawn left ∷ l) (create s).1
      unfolding crew
      crew-create parent good = rw (crew, parent, good)

      crew-refuse :
          (head ks == 0) || (total rank l == 0) ≡ true
          → (create s).0 ≡ false
          → (crew advance rank create spawn (suc f) ks (suc left) l s).created ≡ false
      unfolding crew
      crew-refuse parent bad = rw (crew, parent, bad)

      crew-turn :
          (head ks == 0) || (total rank l == 0) ≡ false
          → crew advance rank create spawn (suc f) ks (suc left) l s ≡ (
              let (l', s') = turn advance rank (head ks - 1) l s in
              crew advance rank create spawn f (tail ks) (suc left) l' s')
      unfolding crew
      crew-turn thread = rw (crew, thread)

    -- Where every creation succeeds and the fuel is enough, all threads have ended when they are
    -- joined, and what every creation and every step keeps holds then.
    pub crew-joins :
        Progresses
        → (P : ℕ → List T → S → Type 0) → ((left : ℕ) → IsKept (P left))
        → ((left : ℕ) (l : List T) (s : S)
            → P (suc left) l s
            → (create s).0 ≡ true
            → P left (spawn left ∷ l) (create s).1)
        → (f : ℕ) (ks : List ℕ) (left : ℕ) (l : List T) (s : S)
        → needed rank spawn left + total rank l ≤ f
        → P left l s
        → let c = crew advance rank create spawn f ks left l s in
          c.created ≡ true → (total rank c.threads ≡ 0) × P 0 c.threads c.shared
    unfolding crew
    crew-joins progress P step make zero ks zero l s enough h done = (omega arith, h)
    crew-joins progress P step make zero ks (suc left) l s enough h done = absurd (omega arith)
    crew-joins progress P step make (suc f) ks zero l s enough h done =
        let (l', s') = turn advance rank (head ks) l s in
        crew-joins progress P step make f (tail ks) zero l' s'
          (omega (arith, turn-shrinks progress (head ks) l s)) (step 0 (head ks) l s h) done
    crew-joins progress P step make (suc f) ks (suc left) l s enough h done =
        let k = head ks - 1 in
        let (l', s') = turn advance rank k l s in
        elim (Bool-cases ((head ks == 0) || (total rank l == 0))) [
          | inl parent ↦ elim (Bool-cases (create s).0) [
            | inl good ↦ rw (crew-create f left ks l s parent good) (
                crew-joins progress P step make f (tail ks) left (spawn left ∷ l) (create s).1
                  (omega arith) (make left l s h good)
                  (rw (crew-create f left ks l s parent good) at done))
            | inr bad ↦ absurd (cc (crew-refuse f left ks l s parent bad))
          ]
          | inr thread ↦ rw (crew-turn f left ks l s thread) (
              crew-joins progress P step make f (tail ks) (suc left) l' s'
                (ground (arith, turn-shrinks progress k l s)) (step (suc left) k l s h)
                (rw (crew-turn f left ks l s thread) at done))
        ]

    -- Every thread is created where no creation fails.
    pub crew-created :
        ((s : S) → (create s).0 ≡ true)
        → (f : ℕ) (ks : List ℕ) (left : ℕ) (l : List T) (s : S)
        → (crew advance rank create spawn f ks left l s).created ≡ true
    unfolding crew
    crew-created good zero ks left l s = refl
    crew-created good (suc f) ks zero l s =
        let (l', s') = turn advance rank (head ks) l s in crew-created good f (tail ks) zero l' s'
    crew-created good (suc f) ks (suc left) l s =
        let (l', s') = turn advance rank (head ks - 1) l s in
        elim (Bool-cases ((head ks == 0) || (total rank l == 0))) [
          | inl parent ↦
              rw (crew-create f left ks l s parent (good s))
                (crew-created good f (tail ks) left (spawn left ∷ l) (create s).1)
          | inr thread ↦
              rw (crew-turn f left ks l s thread) (crew-created good f (tail ks) (suc left) l' s')
        ]

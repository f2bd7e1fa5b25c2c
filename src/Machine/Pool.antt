-- ===== src/Machine/Pool.antt =====
-- Threads of one process, interleaved. A schedule is a list of picks; where it has run out, or picks
-- a thread that is not there, another thread runs. `rank` is 0 for a thread that has ended.
pub mod Turns
pub mod Runs
pub mod Counts
use mitosis_tests.Base.{ℕ, zero, suc, ◌+◌, ◌-◌, Bool, true, false, ◌||◌, List, [], ◌∷◌, ◌==◌}

abbrev pub head : List ℕ → ℕ
head [] = 0
head (k ∷ ks) = k

abbrev pub tail : List ℕ → List ℕ
tail [] = []
tail (k ∷ ks) = ks

abbrev pub length : List ℕ → ℕ
length [] = 0
length (k ∷ ks) = suc (length ks)

-- a number of every thread, summed; for `rank`, the steps that they have left at most
abbrev pub total : {T : Type 0} → (T → ℕ) → List T → ℕ
total number [] = 0
total number (t ∷ l) = number t + total number l

-- the steps that the parent and the threads that it has not created have left at most
abbrev pub needed : {T : Type 0} → (T → ℕ) → (ℕ → T) → ℕ → ℕ
needed rank spawn zero = 0
needed rank spawn (suc left) = suc (rank (spawn left)) + needed rank spawn left

module _ {S T : Type 0} (advance : T → S → T × S) (rank : T → ℕ) where
  -- A step of the k-th thread that has not ended, or of the last such thread.
  unfoldable pub turn : ℕ → List T → S → List T × S
  turn k [] s = ([], s)
  turn k (t ∷ l) s =
      let same_pick = turn k l s in
      let next_pick = turn (k - 1) l s in
      elim (rank t == 0) [
        | true ↦ (t ∷ same_pick.0, same_pick.1)
        | false ↦ elim ((k == 0) || (total rank l == 0)) [
          | true ↦ ((advance t s).0 ∷ l, (advance t s).1)
          | false ↦ (t ∷ next_pick.0, next_pick.1)
        ]
      ]

  module _ (create : S → Bool × S) (spawn : ℕ → T) where
    -- The parent creates its `left` threads one by one, while those that it has created run, and then
    -- joins them. The answer tells whether every creation succeeded; where one does not, the parent
    -- leaves at once.
    unfoldable pub crew :
        ℕ → List ℕ → ℕ → List T → S → record { created : Bool; threads : List T; shared : S }
    crew zero ks left l s = record { created = true; threads = l; shared = s }
    crew (suc f) ks zero l s = let (l', s') = turn (head ks) l s in crew f (tail ks) zero l' s'
    crew (suc f) ks (suc left) l s =
        let (good, made) = create s in
        let (l', s') = turn (head ks - 1) l s in
        let created = crew f (tail ks) left (spawn left ∷ l) made in
        let moved = crew f (tail ks) (suc left) l' s' in
        elim ((head ks == 0) || (total rank l == 0)) [
          | true ↦ elim good [
            | true ↦ created
            | false ↦ record { created = false; threads = l; shared = made }
          ]
          | false ↦ moved
        ]

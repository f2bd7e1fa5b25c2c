-- ===== src/Sections/Refinement.antt =====
-- The threads of test18.c, in any order, do what they would do one after the other.
use mitosis_tests.Base.{
  ℕ, zero, suc, ◌+◌, ◌-◌, ◌≤◌, ◌<◌, ◌≡◌, refl, sym, subst, ℕ_discrete, ◌∙◌, true, List, [], ◌∷◌,
  arith,
}
use mitosis_tests.Machine.{Process, Replication, Memory, Threads, Remembers}
use mitosis_tests.Machine.Pool.{total, needed}
use mitosis_tests.Machine.Pool.Runs.{IsKept, crew-joins}
use mitosis_tests.Machine.Pool.Counts.{All}
use mitosis_tests.Sections.Worker.{
  num_threads, section_byte, page_of, Worker, Shared, rank, rank_of, advance,
}
use mitosis_tests.Sections.Reference.{one_by_one, one_by_one-at}
use mitosis_tests.Sections.Program.{spawn, enough, create, all_clean, work}
use mitosis_tests.Sections.Steps.{
  ids, pending, IsFresh, AreDistinct, members-kept, IsMember, IsPlaced, written, advance-Progresses,
}
use mitosis_tests.Sections.Interleaving.{turn-members, turn-ids, turn-ready}

-- the numbers of the first `n` threads, newest first
abbrev first_ids : ℕ → List ℕ
first_ids zero = []
first_ids (suc n) = n ∷ first_ids n

first_ids-IsFresh : (n i : ℕ) → n ≤ i → IsFresh i (first_ids n)
first_ids-IsFresh zero i le = tt
first_ids-IsFresh (suc n) i le = (omega arith, first_ids-IsFresh n i (omega arith))

first_ids-AreDistinct : (n : ℕ) → AreDistinct (first_ids n)
first_ids-AreDistinct zero = tt
first_ids-AreDistinct (suc n) = (first_ids-IsFresh n n (omega arith), first_ids-AreDistinct n)

-- Threads that make no more steps have been counted.
pending-zero : (l : List Worker) → total rank l ≡ 0 → total pending l ≡ 0
unfolding rank_of
pending-zero [] h = refl
pending-zero (t ∷ l) h =
    let ended : pending t ≡ 0 = ground arith in omega (arith, ended, pending-zero l (omega arith))

-- A thread that makes no more steps, other than main, has written all its pages.
ended-written :
    (t : Worker) → t.thread_id < num_threads → rank t ≡ 0 → IsPlaced t → written t.place ≡ 256
unfolding rank_of
ended-written t small ended placed = ground arith

module _ {W : Type 0} ⦃sys : Replication W⦄ ⦃mem : Memory W⦄ ⦃threads : Threads W⦄
    {byte word : W → ℕ → ℕ} (r : Remembers mem byte word)
    (asked : (option n b : ℕ) (w : W) → byte (sys.prctl option n w).1 b ≡ byte w b)
    (created : (b : ℕ) (w : W) → byte (threads.pthread_create w).1 b ≡ byte w b)
    (shared_mem : ℕ) where
  few : needed rank spawn 5 + 0 ≤ enough
  unfolding spawn rank_of
  few = omega arith

  -- What holds while `left` members of the crew are still to come.
  abbrev Invariant : ℕ → List Worker → Shared W → Type 0
  Invariant left l s =
      (left ≤ 5)
      × (ids l ≡ first_ids (5 - left))
      × (s.threads_ready + total pending l + (left - 1) ≡ num_threads)
      × All (IsMember shared_mem r asked s.process.env) l

  turn-Invariant : (left : ℕ) → IsKept (advance shared_mem) rank (Invariant left)
  turn-Invariant left k l s (le, named, ready, members) =
      let distinct : AreDistinct (ids l) = rw named (first_ids-AreDistinct (5 - left)) in
      (
        le,
        turn-ids shared_mem k l s ∙ named,
        omega (arith, turn-ready shared_mem k l s),
        turn-members shared_mem r asked k l s distinct members,
      )

  create-byte : (s : Shared W) (b : ℕ) → byte (create s).1.process.env b ≡ byte s.process.env b
  unfolding create
  create-byte s b = ground (arith, created b s.process.env)

  create-ready : (s : Shared W) → (create s).1.threads_ready ≡ s.threads_ready
  unfolding create
  create-ready s = ground arith

  spawn-Invariant :
      (left : ℕ) (l : List Worker) (s : Shared W)
      → Invariant (suc left) l s
      → Invariant left (spawn left ∷ l) (create s).1
  unfolding spawn
  spawn-Invariant zero l s (le, named, ready, members) = (
    omega arith,
    rw named refl,
    omega (arith, create-ready s, ready),
    (
      (refl, (refl, tt, λ k lt. absurd (omega arith))),
      members-kept shared_mem r asked l s.process.env (create s).1.process.env (create-byte s)
          members,
    ),
  )
  spawn-Invariant (suc m) l s (le, named, ready, members) =
      let e : 5 - suc m ≡ suc (3 - m) = omega arith in
      let e' : 5 - suc (suc m) ≡ 3 - m = omega arith in
      (
        omega arith,
        rw (named, e, e') refl,
        omega (arith, create-ready s, ready),
        (
          (omega arith, (refl, refl, λ k lt. absurd (omega arith))),
          members-kept shared_mem r asked l s.process.env (create s).1.process.env (create-byte s)
              members,
        ),
      )

  -- A thread of the crew that has come to its end has written its section.
  ended-held :
      (l : List Worker) (n i k : ℕ) (w : W)
      → ids l ≡ first_ids n
      → i < n
      → i < num_threads
      → k < 256
      → total rank l ≡ 0
      → All (IsMember shared_mem r asked w) l
      → byte w (page_of shared_mem i k) ≡ section_byte i
  ended-held [] zero i k w named lt small page ended members = absurd (omega arith)
  ended-held [] (suc n) i k w named lt small page ended members = absurd (cc named)
  ended-held (t ∷ l) zero i k w named lt small page ended members = absurd (omega arith)
  ended-held (t ∷ l) (suc n) i k w named lt small page ended (member, members) =
      let here : t.thread_id ≡ n = cc named in
      let there : ids l ≡ first_ids n = cc named in
      elim (ℕ_discrete i n) [
        | yes same ↦
            let all_written : written t.place ≡ 256 =
              ended-written t (omega arith) (omega arith) member.0 in
            subst (λ j. byte w (page_of shared_mem j k) ≡ section_byte j) (here ∙ sym same)
              (member.1.2 k (omega arith))
        | no other ↦ ended-held l n i k w there (omega arith) small page (omega arith) members
      ]

  members-clean :
      (l : List Worker) (w : W) → All (IsMember shared_mem r asked w) l → all_clean l ≡ true
  members-clean [] w members = refl
  members-clean (t ∷ l) w ((placed, (clean, _, _)), members) =
      ground (arith, clean, members-clean l w members)

  -- Whatever the system answers and in whichever order the threads run, on memory that keeps what is
  -- written and where neither prctl() nor pthread_create() changes it: if every thread could be created,
  -- then all come to the loop in which they wait, each has counted itself in `threads_ready`, none has
  -- found an error, and every page of every section begins with the byte that it has where the writing
  -- loops of the threads are run one after the other, from any world.
  pub threads_refine :
      (schedule : List ℕ) (p : Process W) (w : W) (i k : ℕ)
      → (work shared_mem schedule p).created ≡ true
      → i < num_threads
      → k < 256
      → let c = work shared_mem schedule p in
        (total rank c.threads ≡ 0)
        × (c.shared.threads_ready ≡ num_threads)
        × (all_clean c.threads ≡ true)
        × (byte c.shared.process.env (page_of shared_mem i k)
            ≡ byte (one_by_one shared_mem 0 num_threads w) (page_of shared_mem i k))
  threads_refine schedule p w i k made small page =
      let joined =
        crew-joins (advance shared_mem) rank create spawn (advance-Progresses shared_mem) Invariant
          turn-Invariant (λ left l s h good. spawn-Invariant left l s h) enough schedule 5 []
          (record { process = p; threads_ready = 0; i = 0; test_passed = true }) few
          (omega arith, refl, refl, tt) made in
      let c = work shared_mem schedule p in
      let (le, named, ready, members) = joined.1 in
      let w1 = c.shared.process.env in
      (
        joined.0,
        omega (arith, ready, pending-zero c.threads joined.0),
        members-clean c.threads w1 members,
        ended-held c.threads 5 i k w1 named (omega arith) small page joined.0 members
            ∙ sym (one_by_one-at r shared_mem 0 num_threads i k w (omega arith) small small page),
      )

-- ===== src/Sections/Steps.antt =====
-- What a step of a thread of test18.c keeps for the others.
use mitosis_tests.Base.{
  ℕ, zero, suc, ◌+◌, ◌≤◌, ◌<◌, ◌≡◌, refl, sym, ◌≢◌, ◌∙◌, List, [], ◌∷◌, arith, ℕ_discrete,
}
use mitosis_tests.Machine.{pr_get_pgtable_repl, Replication, Memory, Remembers}
use mitosis_tests.Machine.Pool.Runs.{Progresses}
use mitosis_tests.Machine.Pool.Counts.{All}
use mitosis_tests.Sections.Worker.{
  num_threads, section_byte, page_of, Place, writing, verifying, counting, spinning, asking,
  awaiting, Worker, Shared, rank_of, rank, verify, ask, advance,
}

-- how many pages of its section a thread has written
abbrev pub written : Place → ℕ
written (writing i n) = i
written asking = 0
written awaiting = 0
written _ = 256

-- The loops run over 256 pages.
abbrev IsWhole : Place → Type 0
IsWhole (writing i n) = i + n ≡ 256
IsWhole (verifying i n) = i + n ≡ 256
IsWhole _ = Unit

written-le : (p : Place) → IsWhole p → written p ≤ 256
written-le (writing i n) whole = omega arith
written-le (verifying i n) whole = omega arith
written-le counting whole = omega arith
written-le spinning whole = omega arith
written-le asking whole = omega arith
written-le awaiting whole = omega arith

-- The numbers of the threads, all different.
abbrev pub ids : List Worker → List ℕ
ids [] = []
ids (t ∷ l) = t.thread_id ∷ ids l

abbrev pub IsFresh : ℕ → List ℕ → Type 0
IsFresh i [] = Unit
IsFresh i (j ∷ l) = (j ≢ i) × IsFresh i l

abbrev pub AreDistinct : List ℕ → Type 0
AreDistinct [] = Unit
AreDistinct (i ∷ l) = IsFresh i l × AreDistinct l

-- 1 for a thread that has not yet counted itself in `threads_ready`
abbrev pub pending : Worker → ℕ
pending t = elim t.place [ spinning ↦ 0 | asking ↦ 0 | awaiting ↦ 0 | _ ↦ 1 ]

-- Main itself has the number behind the last thread's.
abbrev pub IsPlaced : Worker → Type 0
IsPlaced t = elim t.place [
  | asking ↦ t.thread_id ≡ num_threads
  | awaiting ↦ t.thread_id ≡ num_threads
  | _ ↦ t.thread_id < num_threads
]

pub IsPlaced-le : (t : Worker) → IsPlaced t → t.thread_id ≤ num_threads
IsPlaced-le t placed = ground arith

module _ {W : Type 0} ⦃sys : Replication W⦄ ⦃mem : Memory W⦄ (shared_mem : ℕ) where
  pub advance-Progresses : Progresses (advance {W = W} shared_mem) rank
  unfolding advance verify ask rank_of
  advance-Progresses t s running = ground arith

  pub advance-id : (t : Worker) (s : Shared W) → (advance shared_mem t s).0.thread_id ≡ t.thread_id
  unfolding advance verify ask
  advance-id t s = ground arith

  pub advance-IsPlaced :
      (t : Worker) (s : Shared W) → IsPlaced t → IsPlaced (advance shared_mem t s).0
  unfolding advance verify ask
  advance-IsPlaced t s placed = ground arith

  pub advance-ready :
      (t : Worker) (s : Shared W)
      → let (t', s') = advance shared_mem t s in
        s'.threads_ready + pending t' ≡ s.threads_ready + pending t
  unfolding advance verify ask
  advance-ready t s = ground arith

  module _ {byte word : W → ℕ → ℕ} (r : Remembers mem byte word)
      (asked : (option n b : ℕ) (w : W) → byte (sys.prctl option n w).1 b ≡ byte w b) where
    -- A thread has found no error, and what it has written is there.
    abbrev pub IsSound : W → Worker → Type 0
    IsSound w t =
        (t.errors ≡ 0)
        × IsWhole t.place
        × ((k : ℕ)
            → k < written t.place
            → byte w (page_of shared_mem t.thread_id k) ≡ section_byte t.thread_id)

    -- A step of a thread changes no page of another section.
    advance-other_at :
        (p : Place) (t e : ℕ) (s : Shared W) (id k : ℕ)
        → IsWhole p
        → t ≢ id
        → k < 256
        → let moved = advance shared_mem (record { thread_id = t; place = p; errors = e }) s in
          byte moved.1.process.env (page_of shared_mem id k)
          ≡ byte s.process.env (page_of shared_mem id k)
    unfolding advance verify ask
    advance-other_at (writing j zero) t e s id k whole other lt = refl
    advance-other_at (writing j (suc n)) t e s id k whole other lt =
        r.store_other (page_of shared_mem t j) (section_byte t) (page_of shared_mem id k)
          s.process.env (omega arith)
    advance-other_at (verifying j zero) t e s id k whole other lt = refl
    advance-other_at (verifying j (suc n)) t e s id k whole other lt =
        r.load_byte (page_of shared_mem t j) (page_of shared_mem id k) s.process.env
    advance-other_at counting t e s id k whole other lt = refl
    advance-other_at spinning t e s id k whole other lt = refl
    advance-other_at awaiting t e s id k whole other lt = refl
    advance-other_at asking t e s id k whole other lt =
        asked pr_get_pgtable_repl 0 (page_of shared_mem id k) s.process.env

    -- A step of one thread leaves another as sound as it was.
    pub advance-other :
        (t u : Worker) (s : Shared W)
        → IsWhole t.place
        → t.thread_id ≢ u.thread_id
        → IsSound s.process.env u
        → IsSound (advance shared_mem t s).1.process.env u
    advance-other t u s whole other (clean, pages, held) = (
      clean,
      pages,
      λ k lt.
          advance-other_at t.place t.thread_id t.errors s u.thread_id k whole other
            (omega (arith, written-le u.place pages, lt))
          ∙ held k lt,
    )

    advance-IsSound_at :
        (p : Place) (t e : ℕ) (s : Shared W)
        → t ≤ num_threads
        → let u : Worker = record { thread_id = t; place = p; errors = e } in
          IsSound s.process.env u
          → IsSound (advance shared_mem u s).1.process.env (advance shared_mem u s).0
    unfolding advance verify ask
    advance-IsSound_at (writing j zero) t e s small (clean, whole, held) =
        (clean, refl, λ k lt. held k (omega arith))
    advance-IsSound_at (writing j (suc n)) t e s small (clean, whole, held) = (
      clean,
      omega arith,
      λ k lt. elim (ℕ_discrete j k) [
        | yes same ↦
            rw (← same)
              (r.store_same (page_of shared_mem t j) (section_byte t) s.process.env (omega arith))
        | no other ↦
            r.store_other (page_of shared_mem t j) (section_byte t) (page_of shared_mem t k)
              s.process.env (omega arith)
            ∙ held k (omega arith)
      ],
    )
    advance-IsSound_at (verifying j zero) t e s small (clean, whole, held) = (clean, tt, held)
    advance-IsSound_at (verifying j (suc n)) t e s small (clean, whole, held) =
        let w = s.process.env in
        let found : (mem.load (page_of shared_mem t j) w).0 ≡ section_byte t =
          r.load_value (page_of shared_mem t j) w ∙ held j (omega arith) in
        (
          ground (arith, found, clean),
          omega arith,
          λ k lt. r.load_byte (page_of shared_mem t j) (page_of shared_mem t k) w ∙ held k lt,
        )
    advance-IsSound_at counting t e s small sound = sound
    advance-IsSound_at spinning t e s small sound = sound
    advance-IsSound_at asking t e s small (clean, whole, held) =
        (clean, tt, λ k lt. absurd (omega arith))
    advance-IsSound_at awaiting t e s small sound = sound

    pub advance-IsSound :
        (t : Worker) (s : Shared W)
        → t.thread_id ≤ num_threads
        → IsSound s.process.env t
        → IsSound (advance shared_mem t s).1.process.env (advance shared_mem t s).0
    advance-IsSound t s small sound = advance-IsSound_at t.place t.thread_id t.errors s small sound

    -- A thread in its place, and sound.
    abbrev pub IsMember : W → Worker → Type 0
    IsMember w t = IsPlaced t × IsSound w t

    pub members-kept :
        (l : List Worker) (w w' : W)
        → ((b : ℕ) → byte w' b ≡ byte w b)
        → All (IsMember w) l
        → All (IsMember w') l
    members-kept [] w w' kept members = tt
    members-kept (t ∷ l) w w' kept ((small, (clean, whole, held)), members) = (
      (small, (clean, whole, λ k lt. kept (page_of shared_mem t.thread_id k) ∙ held k lt)),
      members-kept l w w' kept members,
    )

    -- A step of one thread leaves the others members.
    pub advance-members :
        (t : Worker) (l : List Worker) (s : Shared W)
        → IsWhole t.place
        → IsFresh t.thread_id (ids l)
        → All (IsMember s.process.env) l
        → All (IsMember (advance shared_mem t s).1.process.env) l
    advance-members t [] s whole fresh members = tt
    advance-members t (u ∷ l) s whole fresh members =
        let moved = advance-other t u s whole (λ e. fresh.0 (sym e)) members.0.1 in
        ((members.0.0, moved), advance-members t l s whole fresh.1 members.1)

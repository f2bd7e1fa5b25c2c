-- ===== src/Sections/Reference.antt =====
-- The work of the threads of test18.c, done by one thread after the other.
use mitosis_tests.Base.{ℕ, zero, suc, ◌+◌, ◌*◌, ◌≤◌, ◌<◌, ◌≡◌, refl, ◌∙◌, arith, ℕ_discrete}
use mitosis_tests.Machine.{Memory, Remembers}
use mitosis_tests.Loops.{write_bytes}
use mitosis_tests.Loops.Pages.{write_bytes-below, write_bytes-at}
use mitosis_tests.Sections.Worker.{num_threads, section_size, section_byte, page_of}

-- The reference: the writing loops of the threads, one after the other, from thread `id` on.
unfoldable pub one_by_one : {W : Type 0} ⦃mem : Memory W⦄ → ℕ → ℕ → ℕ → W → W
one_by_one shared_mem id zero w = w
one_by_one shared_mem id (suc n) w =
    one_by_one shared_mem (id + 1) n
      (write_bytes (λ _. section_byte id) (shared_mem + id * section_size) 0 256 w)

module _ {W : Type 0} ⦃mem : Memory W⦄ {byte word : W → ℕ → ℕ} (r : Remembers mem byte word)
    (shared_mem : ℕ) where
  one_by_one-below :
      (id n j k : ℕ) (w : W)
      → j < id
      → k < 256
      → byte (one_by_one shared_mem id n w) (page_of shared_mem j k)
        ≡ byte w (page_of shared_mem j k)
  unfolding one_by_one
  one_by_one-below id zero j k w lt page = refl
  one_by_one-below id (suc n) j k w lt page =
      let start = shared_mem + id * section_size in
      one_by_one-below (id + 1) n j k (write_bytes (λ _. section_byte id) start 0 256 w)
        (omega arith) page
      ∙ write_bytes-below r (λ _. section_byte id) start 0 256 (page_of shared_mem j k) w
          (omega arith)

  -- What the reference leaves on a page.
  pub one_by_one-at :
      (id n j k : ℕ) (w : W)
      → id ≤ j
      → j < id + n
      → j < num_threads
      → k < 256
      → byte (one_by_one shared_mem id n w) (page_of shared_mem j k) ≡ section_byte j
  unfolding one_by_one
  one_by_one-at id zero j k w le lt small page = absurd (omega arith)
  one_by_one-at id (suc n) j k w le lt small page =
      let w1 = write_bytes (λ _. section_byte id) (shared_mem + id * section_size) 0 256 w in
      elim (ℕ_discrete id j) [
        | yes same ↦ rw (← same) (
            one_by_one-below (id + 1) n id k w1 (omega arith) page
            ∙ write_bytes-at r (λ _. section_byte id) (shared_mem + id * section_size) 0 256 k w
                (omega arith) (omega arith) (omega arith))
        | no other ↦ one_by_one-at (id + 1) n j k w1 (omega arith) (omega arith) small page
      ]

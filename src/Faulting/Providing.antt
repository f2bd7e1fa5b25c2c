-- ===== src/Faulting/Providing.antt =====
-- The page that the handler of test24.c provides.
use mitosis_tests.Base.{ℕ, zero, suc, ◌+◌, ◌-◌, ◌*◌, ◌%◌, ◌^◌, ◌≤◌, ◌<◌, ◌≡◌, refl, ap, ◌∙◌, arith}
use mitosis_tests.Machine.{Memory, Userfaults, Remembers}
use mitosis_tests.Faulting.{page_size, num_pages, page_number, fault_word, prepare, provide}

page_number-page :
    (region i k : ℕ)
    → region + page_size * num_pages ≤ 2 ^ 64
    → i < num_pages
    → k < page_size
    → page_number (region + page_size * i + k) region ≡ i
page_number-page region i k fits lt in_page = omega arith

start-page :
    (base i k : ℕ)
    → k < page_size
    → let addr = page_size * base + page_size * i + k in
      addr - addr % page_size ≡ page_size * base + page_size * i
start-page base i k in_page = omega arith

fault_word-small : (i : ℕ) → i < num_pages → fault_word i ≡ 0xDEAD0000 + i
fault_word-small zero lt = refl
fault_word-small (suc zero) lt = refl
fault_word-small (suc (suc zero)) lt = refl
fault_word-small (suc (suc (suc zero))) lt = refl
fault_word-small (suc (suc (suc (suc zero)))) lt = refl
fault_word-small (suc (suc (suc (suc (suc zero))))) lt = refl
fault_word-small (suc (suc (suc (suc (suc (suc zero)))))) lt = refl
fault_word-small (suc (suc (suc (suc (suc (suc (suc zero))))))) lt = refl
fault_word-small (suc (suc (suc (suc (suc (suc (suc (suc i)))))))) lt = absurd (omega arith)

module _ {W : Type 0} ⦃mem : Memory W⦄ ⦃faults : Userfaults W⦄ {byte word : W → ℕ → ℕ}
    (r : Remembers mem byte word) where
  -- On memory that keeps what is written, for a fault at any address of page `i` of a region that begins
  -- at a page and ends below 2 ^ 64, the handler of test24.c copies its page to the start of page `i`, and
  -- its page begins with the word 0xDEAD0000 + i.
  pub provide-copies :
      (uffd base page i k : ℕ) (w : W)
      → page_size * base + page_size * num_pages ≤ 2 ^ 64
      → i < num_pages
      → k < page_size
      → let region = page_size * base in
        let addr = region + page_size * i + k in
        let ready = prepare uffd region page addr w in
        (provide uffd region page addr w
          ≡ (faults.uffdio_copy uffd (region + page_size * i) page page_size ready).1)
        × (word ready page ≡ 0xDEAD0000 + i)
  unfolding provide prepare
  provide-copies uffd base page i k w fits lt in_page =
      let region = page_size * base in
      let addr = region + page_size * i + k in
      let word_is =
        ap fault_word (page_number-page region i k fits lt in_page) ∙ fault_word-small i lt in
      let small : fault_word (page_number addr region) < 2 ^ 32 = rw word_is (omega arith) in
      let copy =
        λ (d : ℕ). (faults.uffdio_copy uffd d page page_size (prepare uffd region page addr w)).1 in
      (ap copy (start-page base i k in_page), r.store32_same page _ _ small ∙ word_is)

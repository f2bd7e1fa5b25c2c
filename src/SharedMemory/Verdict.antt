-- ===== src/SharedMemory/Verdict.antt =====
-- What the verdict of test8.c means for memory that a parent and its child share.
use mitosis_tests.Base.{
  ℕ, zero, suc, ◌+◌, ◌%◌, ◌^◌, ◌<◌, ◌≤◌, ◌≡◌, refl, ◌∙◌, Bool, true, List, [], ◌∷◌, ◌++◌, arith,
  ltb, ◌&&◌, ℤ, pos, is_neg, false,
}
use mitosis_tests.Machine.{
  start, Process, ok, ended, get, Replication, pr_get_pgtable_repl, Memory, Tasks, exited,
  Remembers,
}
use mitosis_tests.Machine.Pool.{length}
use mitosis_tests.Loops.{copy_text}
use mitosis_tests.Loops.Texts.{Holds, Holds-kept, same_text-true, copy_text-append}
use mitosis_tests.SharedMemory.{
  parent_letters, child_text, both_text, shared_buffer, end_of_text, modify, child, check_parent,
  share,
}

-- A character of a string is a byte other than 0.
abbrev pub are_letters : List ℕ → Bool
are_letters [] = true
are_letters (c ∷ text) = ltb 0 c && are_letters text

module _ {W : Type 0} ⦃mem : Memory W⦄ {byte word : W → ℕ → ℕ} (r : Remembers mem byte word) where
  end_of_text-byte : (n a b : ℕ) (w : W) → byte (end_of_text n a w).1 b ≡ byte w b
  unfolding end_of_text
  end_of_text-byte zero a b w = refl
  end_of_text-byte (suc n) a b w =
      ground (arith, r.load_byte a b w, end_of_text-byte n (a + 1) b (mem.load a w).1)

  -- strcat() finds the byte behind the letters.
  end_of_text-end :
      (n a : ℕ) (letters : List ℕ) (w : W)
      → are_letters letters ≡ true
      → length letters < n
      → Holds r a (letters ++ (0 ∷ [])) w
      → (end_of_text n a w).0 ≡ a + length letters
  unfolding end_of_text
  end_of_text-end zero a letters w good lt h = absurd (omega arith)
  end_of_text-end (suc n) a [] w good lt h = ground (arith, r.load_value a w)
  end_of_text-end (suc n) a (c ∷ letters) w good lt h =
      let w1 = (mem.load a w).1 in
      let kept = Holds-kept r (a + 1) (letters ++ (0 ∷ [])) w w1 (λ b. r.load_byte a b w) h.1 in
      let rest = end_of_text-end n (a + 1) letters w1 (ground arith) (omega arith) kept in
      ground (arith, r.load_value a w, rest)

-- A parent and its child that share the mapping at `base`: the child begins with the parent's content,
-- and the parent finds the child's when it has waited. prctl() changes nothing in it, and neither do
-- accesses to the counter and to the buffer behind it for each other.
pub record Shares {W : Type 0} (sys : Replication W) (tasks : Tasks W) (mem : Memory W)
    (byte word : W → ℕ → ℕ) (base : ℕ) : Type 0 where
  pub fork_byte :
      (b : ℕ) (w : W) → base ≤ b → b < base + 4096 → byte (tasks.fork w).child b ≡ byte w b
  pub fork_word : (w : W) → word (tasks.fork w).child base ≡ word w base
  pub wait_byte :
      (pid : ℤ) (n b : ℕ) (c w : W)
      → base ≤ b
      → b < base + 4096
      → byte (tasks.waitpid pid n c w).1 b ≡ byte c b
  pub wait_word : (pid : ℤ) (n : ℕ) (c w : W) → word (tasks.waitpid pid n c w).1 base ≡ word c base
  pub prctl_byte :
      (option n b : ℕ) (w : W)
      → base ≤ b
      → b < base + 4096
      → byte (sys.prctl option n w).1 b ≡ byte w b
  pub prctl_word : (option n : ℕ) (w : W) → word (sys.prctl option n w).1 base ≡ word w base
  pub store32_byte : (v b : ℕ) (w : W) → base + 4 ≤ b → byte (mem.store32 base v w) b ≡ byte w b
  pub load32_byte : (b : ℕ) (w : W) → base + 4 ≤ b → byte (mem.load32 base w).1 b ≡ byte w b
  pub store_word : (b v : ℕ) (w : W) → base + 4 ≤ b → word (mem.store b v w) base ≡ word w base
  pub load_word : (b : ℕ) (w : W) → base + 4 ≤ b → word (mem.load b w).1 base ≡ word w base

module _ {W : Type 0} ⦃mem : Memory W⦄ ⦃sys : Replication W⦄ {byte word : W → ℕ → ℕ}
    (r : Remembers mem byte word) where
  -- the text in the buffer of the mapping at `base`
  abbrev pub Reads : ℕ → List ℕ → W → Type 0
  Reads base text w = Holds r (shared_buffer base) text w

  module _ ⦃tasks : Tasks W⦄ where
    -- A string in the mapping stays where the bytes of the buffer do.
    Reads-kept :
        (base : ℕ) (text : List ℕ) (w w' : W)
        → length text < 4092
        → ((b : ℕ) → base + 4 ≤ b → b < base + 4096 → byte w' b ≡ byte w b)
        → Reads base text w
        → Reads base text w'
    Reads-kept base text w w' short kept h = go (base + 4) text (omega arith) (omega arith) h
      where
        go :
            (a : ℕ) (text : List ℕ)
            → base + 4 ≤ a
            → a + length text < base + 4096
            → Holds r a text w
            → Holds r a text w'
        go a [] le lt h = tt
        go a (c ∷ text) le lt h =
            (kept a le (omega arith) ∙ h.0, go (a + 1) text (omega arith) (omega arith) h.1)

    module _ (base : ℕ) (shares : Shares sys tasks mem byte word base) where
      end_of_text-word :
          (n a : ℕ) (w : W) → base + 4 ≤ a → word (end_of_text n a w).1 base ≡ word w base
      unfolding end_of_text
      end_of_text-word zero a w le = refl
      end_of_text-word (suc n) a w le = ground (
        arith,
        shares.load_word a w le,
        end_of_text-word n (a + 1) (mem.load a w).1 (omega arith),
      )

      copy_text-word :
          (a : ℕ) (text : List ℕ) (w : W)
          → base + 4 ≤ a
          → word (copy_text a text w) base ≡ word w base
      unfolding copy_text
      copy_text-word a [] w le = refl
      copy_text-word a (c ∷ text) w le =
          copy_text-word (a + 1) text (mem.store a c w) (omega arith) ∙ shares.store_word a c w le

      child_run :
          (w : W)
          → (sys.prctl pr_get_pgtable_repl 0 w).0 ≡ pos 0
          → let w1 = modify base (sys.prctl pr_get_pgtable_repl 0 w).1 in
            word w1 base ≡ 1
            → child base (start w)
              ≡ (ended 0, record { env = (mem.load32 base w1).1; trace = get (pos 0) ∷ [] })
      unfolding child
      child_run w off one =
          let w1 = modify base (sys.prctl pr_get_pgtable_repl 0 w).1 in
          ground (arith, off, one, r.load32_value base w1)

      -- What the child makes of the counter 0 and the string "Parent".
      modify_lem :
          (w : W)
          → word w base ≡ 0
          → Reads base (parent_letters ++ (0 ∷ [])) w
          → (word (modify base w) base ≡ 1) × Reads base both_text (modify base w)
      unfolding modify
      modify_lem w e h =
          let buffer = shared_buffer base in
          let text = parent_letters ++ (0 ∷ []) in
          let (x, w1) = mem.load32 base w in
          let w2 = mem.store32 base ((x + 1) % 2 ^ 32) w1 in
          let (end, w3) = end_of_text 4092 buffer w2 in
          let one : x ≡ 0 = ground (arith, r.load32_value base w) in
          let here2 =
            Reads-kept base text w w2 (omega arith)
              (λ b le lt.
                shares.store32_byte ((x + 1) % 2 ^ 32) b w1 le ∙ shares.load32_byte b w le)
              h in
          let found : end ≡ buffer + 6 =
            end_of_text-end r 4092 buffer parent_letters w2 refl (omega arith) here2 in
          let here3 =
            Holds-kept r buffer text w2 w3 (λ b. end_of_text-byte r 4092 buffer b w2) here2 in
          (
            copy_text-word end child_text w3 (omega arith)
                ∙ end_of_text-word 4092 buffer w2 (omega arith)
                ∙ ground (arith, r.store32_same base ((x + 1) % 2 ^ 32) w1 (omega arith)),
            rw found (copy_text-append r buffer parent_letters (0 ∷ []) child_text w3 refl here3),
          )

      child-passes :
          (w : W)
          → (sys.prctl pr_get_pgtable_repl 0 w).0 ≡ pos 0
          → word w base ≡ 0
          → Reads base (parent_letters ++ (0 ∷ [])) w
          → let c = child base (start w) in
            (c.0 ≡ ended 0) × (word c.1.env base ≡ 1) × Reads base both_text c.1.env
      child-passes w off e h =
          let text = parent_letters ++ (0 ∷ []) in
          let buffer = shared_buffer base in
          let w1 = (sys.prctl pr_get_pgtable_repl 0 w).1 in
          let w2 = modify base w1 in
          let w3 = (mem.load32 base w2).1 in
          let here =
            Reads-kept base text w w1 (omega arith)
              (λ b le lt. shares.prctl_byte pr_get_pgtable_repl 0 b w (omega arith) lt) h in
          let (one, both) = modify_lem w1 (shares.prctl_word pr_get_pgtable_repl 0 w ∙ e) here in
          let kept =
            Reads-kept base both_text w2 w3 (omega arith) (λ b le lt. shares.load32_byte b w2 le)
              both in
          rw (child_run w off one) (refl, r.load32_word base base w2 ∙ one, kept)

      check_parent_run :
          (s : Process W)
          → word s.env base ≡ 1
          → Reads base both_text s.env
          → (check_parent base s).0 ≡ ok tt
      unfolding check_parent
      check_parent_run s e h =
          let w1 = (mem.load32 base s.env).1 in
          let kept =
            Reads-kept base both_text s.env w1 (omega arith)
              (λ b le lt. shares.load32_byte b s.env le) h in
          ground (
            arith,
            r.load32_value base s.env,
            e,
            same_text-true r (shared_buffer base) both_text w1 kept,
          )

      -- On memory that keeps what is written, where a parent and its child share the mapping and
      -- waitpid() reports the status with which the child ended: test8.c goes on from its fork to its second
      -- test, if the mapping holds the counter 0 and the string "Parent", fork() returns a number that is not
      -- negative, and the child is shown the mask 0.
      pub sharing-passes :
          (truthful : (pid : ℤ) (n : ℕ) (c v : W) → (tasks.waitpid pid n c v).0 ≡ exited n)
          (s : Process W)
          → is_neg (tasks.fork s.env).pid ≡ false
          → (sys.prctl pr_get_pgtable_repl 0 (tasks.fork s.env).child).0 ≡ pos 0
          → word s.env base ≡ 0
          → Reads base (parent_letters ++ (0 ∷ [])) s.env
          → (share base s).0 ≡ ok tt
      unfolding share
      sharing-passes truthful s parent off e h =
          let f = tasks.fork s.env in
          let c = child base (start f.child) in
          let text = parent_letters ++ (0 ∷ []) in
          let begun =
            Reads-kept base text s.env f.child (omega arith)
              (λ b le lt. shares.fork_byte b s.env (omega arith) lt) h in
          let (done, one, both) = child-passes f.child off (shares.fork_word s.env ∙ e) begun in
          let w1 = (tasks.waitpid f.pid 0 c.1.env f.parent).1 in
          let seen =
            Reads-kept base both_text c.1.env w1 (omega arith)
              (λ b le lt. shares.wait_byte f.pid 0 b c.1.env f.parent (omega arith) lt) both in
          let checked =
            check_parent_run (record s { env = w1 })
              (shares.wait_word f.pid 0 c.1.env f.parent ∙ one) seen in
          ground (arith, parent, done, truthful f.pid 0 c.1.env f.parent, checked)

-- ===== src/PrivateFile/Isolation.antt =====
-- test19.c where fork() gives the child a copy of the memory.
use mitosis_tests.Base.{ℕ, ◌+◌, ◌-◌, ◌/◌, ◌≡◌, ◌≢◌, ◌∙◌, false, some, ◌∷◌, arith, is_neg, ℤ, pos}
use mitosis_tests.Machine.{
  Process, status, start, get, set, acquire, region, Status, exited, is_failure, Replication,
  Memory, Tasks, Files, Remembers, Isolates, pr_set_pgtable_repl, pr_get_pgtable_repl, read_write,
  private_file,
}
use mitosis_tests.PrivateFile.{file_size, modify, child, finish, share}

module _ {W : Type 0} ⦃mem : Memory W⦄ {byte word : W → ℕ → ℕ} (r : Remembers mem byte word) where
  -- The four bytes that the parent looks at.
  abbrev IsModified : ℕ → W → Type 0
  IsModified map w =
      (byte w map ≡ 0xAA)
      × (byte w (map + 100) ≡ 0xBB)
      × (byte w (map + file_size / 2) ≡ 0xCC)
      × (byte w (map + file_size - 1) ≡ 0xEE)

  modify-IsModified : (map : ℕ) (w : W) → IsModified map (modify map w)
  unfolding modify
  modify-IsModified map w =
      let half = map + file_size / 2 in
      let end = map + file_size - 1 in
      let w1 = mem.store map 0xAA w in
      let w2 = mem.store (map + 100) 0xBB w1 in
      let w3 = mem.store half 0xCC w2 in
      let w4 = mem.store (half + 1) 0xDD w3 in
      let later : (b : ℕ) → end ≢ b → half + 1 ≢ b → byte (modify map w) b ≡ byte w3 b =
        λ b ne ne'. r.store_other end 0xEE b w4 ne ∙ r.store_other (half + 1) 0xDD b w3 ne' in
      (
        later map (omega arith) (omega arith)
            ∙ r.store_other half 0xCC map w2 (omega arith)
            ∙ r.store_other (map + 100) 0xBB map w1 (omega arith)
            ∙ r.store_same map 0xAA w (omega arith),
        later (map + 100) (omega arith) (omega arith)
            ∙ r.store_other half 0xCC (map + 100) w2 (omega arith)
            ∙ r.store_same (map + 100) 0xBB w1 (omega arith),
        later half (omega arith) (omega arith) ∙ r.store_same half 0xCC w2 (omega arith),
        r.store_same end 0xEE w4 (omega arith),
      )

  child-passes : (map : ℕ) (w : W) → status (child map) (start w) ≡ 0
  unfolding child
  child-passes map w =
      let w1 = mem.store map 0xFF w in
      let w2 = mem.store (map + file_size / 2) 0x11 w1 in
      ground (
        arith,
        r.load_value map w2,
        r.store_other (map + file_size / 2) 0x11 map w1 (omega arith),
        r.store_same map 0xFF w (omega arith),
        r.load_value (map + file_size / 2) (mem.load map w2).1,
        r.load_byte map (map + file_size / 2) w2,
        r.store_same (map + file_size / 2) 0x11 w1 (omega arith),
      )

  module _ ⦃sys : Replication W⦄ ⦃files : Files W⦄
      (grants : (n : ℕ) (w : W) → (sys.prctl pr_set_pgtable_repl n w).0 ≡ pos 0) where
    finish-passes :
        (map fd : ℕ) (child_status : Status) (s : Process W)
        → IsModified map s.env
        → is_failure child_status ≡ false
        → status (finish map fd child_status) s ≡ 0
    unfolding finish
    finish-passes map fd child_status s h good =
        let w1 = (mem.load map s.env).1 in
        let w2 = (mem.load (map + 100) w1).1 in
        let w3 = (mem.load (map + file_size / 2) w2).1 in
        let w4 = (mem.load (map + file_size - 1) w3).1 in
        ground (
          arith,
          r.load_value map s.env,
          r.load_value (map + 100) w1,
          r.load_value (map + file_size / 2) w2,
          r.load_value (map + file_size - 1) w3,
          grants 0 w4,
          r.load_byte map (map + 100) s.env,
          r.load_byte map (map + file_size / 2) s.env,
          r.load_byte map (map + file_size - 1) s.env,
          r.load_byte (map + 100) (map + file_size / 2) w1,
          r.load_byte (map + 100) (map + file_size - 1) w1,
          r.load_byte (map + file_size / 2) (map + file_size - 1) w2,
        )

    -- On memory that keeps what is written and of which fork() gives the child a copy, where the file can
    -- be mapped, replication switched and a process forked, and waitpid() reports the status with which
    -- the child ended, test19.c passes from the mapping of its file on: what the child writes to the
    -- bytes of its parent does not change them.
    pub share-passes :
        ⦃tasks : Tasks W⦄
        → (isolates : Isolates sys tasks byte)
        → (forks : (w : W) → is_neg (tasks.fork w).pid ≡ false)
        → (reports : (pid : ℤ) (n : ℕ) (c w : W) → (tasks.waitpid pid n c w).0 ≡ exited n)
        → (maps : (fd : ℕ) (w : W)
            → (a : ℕ) × ((mem.mmap (private_file fd) file_size read_write w).0 ≡ some a))
        → (fd : ℕ) (s : Process W) → status (share fd) s ≡ 0
    unfolding share
    share-passes ⦃tasks⦄ isolates forks reports maps fd s =
        let (map, e) = maps fd s.env in
        let w1 = (mem.mmap (private_file fd) file_size read_write s.env).1 in
        let (on, w2) = sys.prctl pr_set_pgtable_repl 1 w1 in
        let (mask, w3) = sys.prctl pr_get_pgtable_repl 0 w2 in
        let w4 = modify map w3 in
        let f = tasks.fork w4 in
        let c = child map (start f.child) in
        let (told, w5) = tasks.waitpid f.pid 0 c.1.env f.parent in
        let kept : (b : ℕ) → byte w5 b ≡ byte w4 b =
          λ b. isolates.wait_byte f.pid 0 b c.1.env f.parent ∙ isolates.parent_byte b w4 in
        let (first, second, middle, last) = modify-IsModified map w3 in
        let p : Process W = record {
          env = w5;
          trace = get mask ∷ set 1 on ∷ acquire (region map file_size) ∷ s.trace;
        } in
        let rest =
          finish-passes map fd told p
            (
              kept map ∙ first,
              kept (map + 100) ∙ second,
              kept (map + file_size / 2) ∙ middle,
              kept (map + file_size - 1) ∙ last,
            )
            (ground (arith, reports f.pid 0 c.1.env f.parent)) in
        ground (arith, e, grants 1 w1, forks w4, child-passes map f.child, rest)

-- ===== src/PrivateFile/Verdict.antt =====
-- What the verdict of test19.c means, and what the test leaves behind.
use mitosis_tests.Base.{ℕ, ◌+◌, ◌-◌, ◌/◌, ◌≡◌, false, some, arith}
use mitosis_tests.Machine.{
  Process, region, descriptor, Owes, Resource, acquired, released, same, file, calls, status, start,
  Status, is_failure, Replication, Memory, Tasks, Files,
}
use mitosis_tests.PrivateFile.{file_size, finish, share, main}

module _ {W : Type 0} ⦃mem : Memory W⦄ ⦃sys : Replication W⦄ ⦃files : Files W⦄ where
  -- On memory in which a load answers the byte of its address and changes none: whatever else the system
  -- answers, test19.c passes, from the end of its child on, only if the child ended with status 0, the four
  -- bytes that the parent wrote and looks at are still in its mapping, and the switch-off was granted.
  finish-passes_only :
      {byte : W → ℕ → ℕ}
      → (value : (a : ℕ) (w : W) → (mem.load a w).0 ≡ byte w a)
      → (kept : (a b : ℕ) (w : W) → byte (mem.load a w).1 b ≡ byte w b)
      → (map fd : ℕ) (child_status : Status) (s : Process W)
      → status (finish map fd child_status) s ≡ 0
      → (is_failure child_status ≡ false)
        × (byte s.env map ≡ 0xAA)
        × (byte s.env (map + 100) ≡ 0xBB)
        × (byte s.env (map + file_size / 2) ≡ 0xCC)
        × (byte s.env (map + file_size - 1) ≡ 0xEE)
  unfolding finish
  finish-passes_only value kept map fd child_status s h =
      let w1 = (mem.load map s.env).1 in
      let w2 = (mem.load (map + 100) w1).1 in
      let w3 = (mem.load (map + file_size / 2) w2).1 in
      ground (
        arith,
        value map s.env,
        value (map + 100) w1,
        value (map + file_size / 2) w2,
        value (map + file_size - 1) w3,
        kept map (map + 100) s.env,
        kept map (map + file_size / 2) s.env,
        kept map (map + file_size - 1) s.env,
        kept (map + 100) (map + file_size / 2) w1,
        kept (map + 100) (map + file_size - 1) w1,
        kept (map + file_size / 2) (map + file_size - 1) w2,
      )

  finish-Owes :
      (r : Resource) (map fd : ℕ) (child_status : Status) (s : Process W)
      → same r file ≡ 0
      → Owes r (same r (region map file_size) + same r (descriptor fd)) s
      → Owes r 0 (finish map fd child_status s).1
  unfolding finish
  finish-Owes r map fd child_status s other h = ground arith

  module _ ⦃tasks : Tasks W⦄ where
    share-Owes :
        (r : Resource) (fd : ℕ) (s : Process W)
        → same r file ≡ 0
        → Owes r (same r (descriptor fd)) s
        → Owes r 0 (share fd s).1
    unfolding share
    share-Owes r fd s other h = grind (arith, finish-Owes r)

    -- Where malloc() gives memory, whatever else the system answers, test19.c ends with its mapping unmapped,
    -- its descriptor closed and its block freed as often as they were taken. Its file is not among these.
    private_file-settles :
        (gives : (w : W) → (a : ℕ) × ((mem.malloc file_size w).0 ≡ some a))
        → (r : Resource) (w : W) → same r file ≡ 0
        → acquired r (calls main (start w)) ≡ released r (calls main (start w))
    unfolding main
    private_file-settles gives r w other = grind (arith, gives (files.open_file w).1, share-Owes r)

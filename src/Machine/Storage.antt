-- ===== src/Machine/Storage.antt =====
-- Allocation, mappings, and loads and stores. An address is a number; `none` is NULL or MAP_FAILED.
use mitosis_tests.Base.{ℕ, Option, none, some, ℤ, Bool, true, false, not, is_nonzero, List, ◌∷◌}
use mitosis_tests.Machine.Events.{Resource, Event, region, block, acquire, release, refused}
use mitosis_tests.Machine.Monad.{Program, observed, ok}

pub data Prot : Type 0 where
  no_access read read_write read_exec : Prot

-- The flags of `mmap`, as the tests combine them.
pub data MapKind : Type 0 where
  private_anonymous shared_anonymous private_populate : MapKind
  -- MAP_PRIVATE | MAP_ANONYMOUS | MAP_FIXED at an address
  fixed : ℕ → MapKind
  -- the same with MAP_FIXED_NOREPLACE
  fixed_noreplace : ℕ → MapKind
  -- MAP_PRIVATE | MAP_ANONYMOUS | MAP_HUGETLB
  private_huge : MapKind
  -- file mappings by descriptor
  private_file shared_file : ℕ → MapKind

pub record Memory (W : Type 0) : Type 0 where
  pub malloc : ℕ → W → Option ℕ × W
  -- calloc(count, size)
  pub calloc : ℕ → ℕ → W → Option ℕ × W
  pub free : ℕ → W → W
  pub mmap : MapKind → ℕ → Prot → W → Option ℕ × W
  pub munmap : ℕ → ℕ → W → ℤ × W
  pub mprotect : ℕ → ℕ → Prot → W → ℤ × W
  -- madvise(addr, len, MADV_DONTNEED)
  pub discard : ℕ → ℕ → W → ℤ × W
  pub mlock : ℕ → ℕ → W → ℤ × W
  pub munlock : ℕ → ℕ → W → ℤ × W
  -- mlockall(MCL_CURRENT)
  pub mlockall : W → ℤ × W
  pub munlockall : W → W
  -- memset(addr, byte, len)
  pub memset : ℕ → ℕ → ℕ → W → W
  -- an unsigned char at an address
  pub load : ℕ → W → ℕ × W
  pub store : ℕ → ℕ → W → W
  -- a uint32_t at an address
  pub load32 : ℕ → W → ℕ × W
  pub store32 : ℕ → ℕ → W → W

-- The end of the heap.
pub record Heap (W : Type 0) : Type 0 where
  -- sbrk(increment) for an increment that is not negative: the end of the heap before it
  pub sbrk : ℕ → W → Option ℕ × W
  pub brk : ℕ → W → ℤ × W

abbrev taken : (ℕ → Resource) → Option ℕ → Event
taken r none = refused
taken r (some a) = acquire (r a)

module _ {W : Type 0} ⦃mem : Memory W⦄ where
  abbrev pub malloc : ℕ → Program W (Option ℕ)
  malloc n = observed (mem.malloc n) (taken block)

  abbrev pub calloc : ℕ → ℕ → Program W (Option ℕ)
  calloc count size = observed (mem.calloc count size) (taken block)

  abbrev pub free : ℕ → Program W (Unit {0})
  free a = observed (λ w. (tt, mem.free a w)) (λ _. release (block a))

  abbrev pub mmap : MapKind → ℕ → Prot → Program W (Option ℕ)
  mmap k n p = observed (mem.mmap k n p) (taken λ a. region a n)

  abbrev pub munmap : ℕ → ℕ → Program W ℤ
  munmap a n = observed (mem.munmap a n) (λ _. release (region a n))

-- What the trace shows of a change of the heap: that it was refused, and nothing where it was not.
abbrev heap_event : Bool → List Event → List Event
heap_event true t = t
heap_event false t = refused ∷ t

abbrev is_granted : Option ℕ → Bool
is_granted none = false
is_granted (some a) = true

module _ {W : Type 0} ⦃heap : Heap W⦄ where
  abbrev pub sbrk : ℕ → Program W (Option ℕ)
  sbrk n s =
      let (found, w) = heap.sbrk n s.env in
      (ok found, record { env = w; trace = heap_event (is_granted found) s.trace })

  abbrev pub brk : ℕ → Program W ℤ
  brk a s =
      let (ret, w) = heap.brk a s.env in
      (ok ret, record { env = w; trace = heap_event (not (is_nonzero ret)) s.trace })

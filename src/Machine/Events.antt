-- ===== src/Machine/Events.antt =====
-- The observable calls of a process, newest first, and what they say about its obligations.
use mitosis_tests.Base.{
  ℕ, zero, suc, ◌+◌, ◌≡◌, Bool, true, false, ◌&&◌, Option, List, [], ◌∷◌, ◌==◌, if◌then◌else◌,
  is_neg, ℤ,
}

-- The resource limits that the tests change.
pub data Limit : Type 0 where
  memlock data_segment stack_size processes cpu_time : Limit

-- The signals that the tests handle; `segv` and `bus` answer an access.
pub data Fault : Type 0 where
  segv bus : Fault

pub data Signal : Type 0 where
  fault : Fault → Signal
  sigusr1 sigusr2 sigalrm : Signal

-- What a test takes from the system and has to give back.
pub data Resource : Type 0 where
  -- a mapping of `mmap`: address and size
  region : ℕ → ℕ → Resource
  -- a block of `malloc`
  block : ℕ → Resource
  -- an open descriptor
  descriptor : ℕ → Resource
  -- a file of the name that the test creates
  file : Resource
  -- the handling of a signal, which sigaction() replaces
  handling : Signal → Resource
  -- a resource limit that was lowered
  quota : Limit → Resource

pub data Event : Type 0 where
  -- prctl(PR_SET_PGTABLE_REPL, n, 0, 0, 0), and its answer
  set : ℕ → ℤ → Event
  -- prctl(PR_GET_PGTABLE_REPL, 0, 0, 0, 0), and its answer
  get : ℤ → Event
  acquire : Resource → Event
  release : Resource → Event
  -- an allocation, or a change of the heap, that the system refused
  refused : Event
  -- an access to memory that may be out of reach, and the signal that answered it, if any
  access : Option Fault → Event

number : Limit → ℕ
number memlock = 0
number data_segment = 1
number stack_size = 2
number processes = 3
number cpu_time = 4

signo : Signal → ℕ
signo (fault segv) = 11
signo (fault bus) = 7
signo sigusr1 = 10
signo sigusr2 = 12
signo sigalrm = 14

-- 1 if the resources are the same, and 0 if not.
pub same : Resource → Resource → ℕ
same (region a n) (region b m) = if (a == b) && (n == m) then 1 else 0
same (block a) (block b) = if a == b then 1 else 0
same (descriptor a) (descriptor b) = if a == b then 1 else 0
same file file = 1
same (handling a) (handling b) = if signo a == signo b then 1 else 0
same (quota a) (quota b) = if number a == number b then 1 else 0
same _ _ = 0

-- How often a resource was taken, and how often it was given back.
abbrev pub acquired : Resource → List Event → ℕ
acquired r [] = 0
acquired r (acquire q ∷ t) = same r q + acquired r t
acquired r (_ ∷ t) = acquired r t

abbrev pub released : Resource → List Event → ℕ
released r [] = 0
released r (release q ∷ t) = same r q + released r t
released r (_ ∷ t) = released r t

-- Replication was switched on, and no switching off was asked for since.
abbrev pub armed : List Event → Bool
armed [] = false
armed (set zero a ∷ t) = false
armed (set (suc n) a ∷ t) = if is_neg a then armed t else true
armed (_ ∷ t) = armed t

-- Every resource was given back exactly as often as it was taken.
abbrev pub IsSettled : List Event → Type 0
IsSettled t = (r : Resource) → acquired r t ≡ released r t

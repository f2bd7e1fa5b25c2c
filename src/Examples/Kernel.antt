-- ===== src/Examples/Kernel.antt =====
-- A machine with the memory of one process, two nodes, and a counter of addresses not yet given out.
use mitosis_tests.Base.{
  ℕ, ◌+◌, ◌*◌, ◌%◌, refl, true, false, Option, none, some, arith, ltb, leb, ◌==◌, if◌then◌else◌, ℤ,
  pos,
}
use mitosis_tests.Machine.{
  Replication, MapKind, Memory, Heap, fixed, fixed_noreplace, Tasks, exited, killed, Reaping,
  Vforks, Affinity, Nodes, Policies, Threads, Limits, Files, Switches, Forks, Remembers, Discards,
  Protects, Fills, Isolates, Replaces,
}

pub record Demo : Type 0 where
  pub mask : ℕ
  pub byte : ℕ → ℕ
  pub word : ℕ → ℕ
  pub next : ℕ
  -- the sleeps of 0.1 seconds up to the one in which an alarm rings, and 0 where no alarm is set
  pub clock : ℕ

abbrev pub off : Demo
off = record { mask = 0; byte = λ _. 0; word = λ _. 0; next = 4096; clock = 0 }

abbrev pub on : Demo
on = record off { mask = 3 }

abbrev update : (ℕ → ℕ) → ℕ → ℕ → ℕ → ℕ
update f a v b = if b == a then v else f b

-- the words of a range made zero
abbrev pub zeroed : ℕ → ℕ → (ℕ → ℕ) → ℕ → ℕ
zeroed a n f b = if leb a b then (if leb (b + 4) (a + n) then 0 else f b) else f b

abbrev pub grant : ℕ → Demo → Option ℕ × Demo
grant n d = (some d.next, record d { next = d.next + n })

abbrev demo_map : MapKind → ℕ → Demo → Option ℕ × Demo
demo_map (fixed a) n d = (some a, d)
demo_map (fixed_noreplace a) n d = (some a, d)
demo_map _ n d = grant n d

abbrev demo_prctl : ℕ → ℕ → Demo → ℤ × Demo
demo_prctl option n d =
    if option == 100
    then (pos 0, record d { mask = if n == 0 then 0 else if n == 1 then 3 else n })
    else (pos d.mask, d)

instance abbrev pub demo_replication : Replication Demo
demo_replication = record { prctl = demo_prctl }

-- The memory calls, for a given effect of a discard on the words, and a given answer of mlock.
abbrev pub memory_with : (ℕ → ℕ → (ℕ → ℕ) → ℕ → ℕ) → ℤ → Memory Demo
memory_with discarded locked = record {
  malloc = grant;
  calloc = λ count size d. grant (count * size) d;
  free = λ a d. d;
  mmap = λ k n p d. demo_map k n d;
  munmap = λ a n d. (pos 0, d);
  mprotect = λ a n p d. (pos 0, d);
  discard = λ a n d. (pos 0, record d { word = discarded a n d.word });
  mlock = λ a n d. (locked, d);
  munlock = λ a n d. (pos 0, d);
  mlockall = λ d. (pos 0, d);
  munlockall = λ d. d;
  memset = λ a v n d. record d {
    byte = λ b. if leb a b then (if ltb b (a + n) then v else d.byte b) else d.byte b;
    word = λ b.
        if leb a b then (if leb (b + 4) (a + n) then v * 0x01010101 else d.word b) else d.word b;
  };
  load = λ a d. (d.byte a, d);
  store = λ a v d. record d { byte = update d.byte a v };
  load32 = λ a d. (d.word a, d);
  store32 = λ a v d. record d { word = update d.word a v };
}

instance abbrev pub demo_memory : Memory Demo
demo_memory = memory_with zeroed (pos 0)

instance abbrev pub demo_tasks : Tasks Demo
demo_tasks = record {
  fork = λ d. record { pid = pos 7; parent = d; child = record d { mask = 0 } };
  clone = λ vm d. record { pid = pos 7; parent = d; child = record d { mask = 0 } };
  is_einval = λ d. false;
  waitpid = λ pid n c d. (exited n, d);
  usleep = λ n d. d;
}

instance abbrev pub demo_nodes : Nodes Demo
demo_nodes = record { numa_available = λ d. pos 0; numa_num_configured_nodes = λ d. 2 }

instance abbrev pub demo_policies : Policies Demo
demo_policies = record {
  set_mempolicy = λ p mask maxnode d. (pos 0, d);
  mbind = λ a n mask maxnode d. (pos 0, d);
}

instance abbrev pub demo_limits : Limits Demo
demo_limits = record { getrlimit = λ l d. (some (64, 128), d); setrlimit = λ l s h d. (pos 0, d) }

instance abbrev pub demo_files : Files Demo
demo_files = record {
  open_file = λ d. (some 3, d);
  write = λ fd a n d. (pos n, d);
  close = λ fd d. d;
  unlink = λ d. d;
  msync = λ a n d. (pos 0, d);
}

-- The heap ends at the next address.
instance abbrev pub demo_heap : Heap Demo
demo_heap = record { sbrk = λ n d. grant n d; brk = λ a d. (pos 0, record d { next = a }) }

-- Threads can be created, and a thread runs on the node that its number gives.
instance abbrev pub demo_threads : Threads Demo
demo_threads = record {
  pthread_create = λ d. (true, d);
  numa_allocate_nodemask = λ d. (0, d);
  numa_bitmask_setbit = λ mask node d. d;
  numa_free_nodemask = λ mask d. d;
  numa_run_on_node_mask = λ thread mask d. (pos 0, d);
  sched_getcpu = λ thread d. (pos (thread % 2), d);
  numa_node_of_cpu = λ cpu d. (cpu, d);
}

instance abbrev pub demo_reaping : Reaping Demo
demo_reaping = record {
  reap = λ pid child d. record {
    result = pid;
    status = elim child [ none ↦ killed | some c ↦ exited c.0 ];
    world = d;
  };
  terminate = λ pid d. d;
}

-- A child of vfork() leaves its memory to the parent, and /bin/true ends with status 0.
instance abbrev pub demo_vforks : Vforks Demo
demo_vforks = record {
  vfork = λ d. record {
    pid = pos 7;
    child = record d { mask = 0 };
    resume = λ c. record c { mask = d.mask };
  };
  execl = λ d. (some 0, d);
}

-- Two processors, one for each node.
instance abbrev pub demo_affinity : Affinity Demo
demo_affinity = record {
  numa_allocate_cpumask = λ d. (0, d);
  numa_node_to_cpus = λ node mask d. (pos 0, d);
  numa_num_configured_cpus = λ d. 2;
  numa_bitmask_isbitset = λ mask cpu d. true;
  numa_free_cpumask = λ mask d. d;
  sched_setaffinity = λ thread cpuset d. (pos 0, d);
}

-- The laws hold of this machine.
pub demo-Switches : Switches demo_replication (λ d. d.mask)
demo-Switches = record {
  on_answer = λ w. refl;
  on_mask = λ w. omega arith;
  off_answer = λ w. refl;
  off_mask = λ w. refl;
  get_answer = λ w. refl;
  get_mask = λ w. refl;
}

pub demo-Forks : Forks demo_tasks (λ d. d.mask)
demo-Forks = record {
  pid_positive = λ w. refl;
  parent_mask = λ w. refl;
  child_mask = λ w. refl;
  wait_status = λ pid n c w. refl;
  wait_mask = λ pid n c w. refl;
}

pub with-Remembers :
    (discarded : ℕ → ℕ → (ℕ → ℕ) → ℕ → ℕ) (locked : ℤ)
    → Remembers (memory_with discarded locked) (λ d. d.byte) (λ d. d.word)
with-Remembers discarded locked = record {
  load_value = λ a w. refl;
  load_byte = λ a b w. refl;
  store_same = λ a v w h. ground arith;
  store_other = λ a v b w h. ground arith;
  load32_value = λ a w. refl;
  load32_word = λ a b w. refl;
  store32_same = λ a v w h. ground arith;
  store32_below = λ a v b w h. ground arith;
  store32_above = λ a v b w h. ground arith;
}

-- A kernel that grants every request, and shows two nodes.
abbrev pub steady : Replication Demo
steady = record { prctl = λ option n d. (if option == 100 then pos 0 else pos 3, d) }

abbrev pub memory : Remembers demo_memory (λ d. d.byte) (λ d. d.word)
memory = with-Remembers zeroed (pos 0)

pub demo-Discards : Discards demo_memory (λ d. d.word)
demo-Discards = record {
  answer = λ a n w. refl;
  inside = λ a n b w h k. ground arith;
  below = λ a n b w h. ground arith;
  above = λ a n b w h. ground arith;
}

pub demo-Protects : Protects demo_memory (λ d. d.word)
demo-Protects = record { protect_answer = λ a n p w. refl; protect_word = λ a n p b w. refl }

pub demo-Fills : Fills demo_memory (λ d. d.byte)
demo-Fills = record {
  filled = λ a v n b w small h k. ground arith;
  before = λ a v n b w h. ground arith;
  behind = λ a v n b w h. ground arith;
}

pub demo-Isolates : Isolates demo_replication demo_tasks (λ d. d.byte)
demo-Isolates = record {
  parent_byte = λ b w. refl;
  child_byte = λ b w. refl;
  wait_byte = λ pid n b c w. refl;
  sleep_byte = λ n b w. refl;
  prctl_byte = λ option n b w. ground arith;
}

pub demo-Replaces : Replaces demo_memory (λ d. d.byte)
demo-Replaces = record {
  fixed_answer = λ a n p w. refl;
  fixed_before = λ a n b p w h. refl;
  fixed_behind = λ a n b p w h. refl;
}

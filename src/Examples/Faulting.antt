-- ===== src/Examples/Faulting.antt =====
-- test24.c on the small machine, where a page is missing as long as its first word is zero.
use mitosis_tests.Base.{
  arith, ◌+◌, ◌-◌, ◌≡◌, refl, ltb, leb, if◌then◌else◌, ◌==◌, some, [], ◌∷◌, pos,
}
use mitosis_tests.Machine.{Userfaults, readable, page_fault, status, start}
use mitosis_tests.Examples.Kernel.{
  Demo, off, memory, demo_replication, demo_memory, demo_tasks, demo_threads,
}
use mitosis_tests.Faulting
use mitosis_tests.Faulting.{prepare, provide}
use mitosis_tests.Faulting.Providing.{provide-copies}

instance abbrev demo_faults : Userfaults Demo
demo_faults = record {
  userfaultfd = λ d. (some 5, d);
  close = λ fd d. d;
  uffdio_api = λ fd d. (pos 0, d);
  uffdio_register = λ fd a n d. (pos 0, d);
  uffdio_copy = λ fd dst src n d. (
    pos 0,
    record d {
      word = λ b.
          if leb dst b
          then (if ltb b (dst + n) then d.word (src + (b - dst)) else d.word b)
          else d.word b;
    },
  );
  served = λ a d. (if d.word a == 0 then readable (page_fault (a + 3)) ∷ [] else [], d);
  joined = λ d. ([], d);
}

all_provided : status (Faulting.main 2) (start off) ≡ 0
unfolding Faulting.main Faulting.use_pages Faulting.replicate Faulting.finish Faulting.check_pages
    Faulting.write_pages Faulting.wait Faulting.serve Faulting.round Faulting.provide
    Faulting.prepare Faulting.await_handler
all_provided = refl

-- A fault in the fourth page of a region that begins at the second page of the memory.
provide-copies_example :
    let ready = prepare 5 4096 65536 16391 off in
    (provide 5 4096 65536 16391 off ≡ (demo_faults.uffdio_copy 5 16384 65536 4096 ready).1)
    × (ready.word 65536 ≡ 0xDEAD0003)
provide-copies_example =
    provide-copies memory 5 1 65536 3 7 off (omega arith) (omega arith) (omega arith)

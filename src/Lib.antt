-- ===== src/Lib.antt =====
-- The Mitosis test suite, test1.c to test35.c. Each file is a program that asks the kernel, by
-- prctl(PR_SET_PGTABLE_REPL) and prctl(PR_GET_PGTABLE_REPL), to replicate the page tables of the process on
-- the NUMA nodes, uses memory, processes or limits meanwhile, and ends with status 0 if it saw nothing
-- wrong. The programs share no code; what joins them is the kernel, which is not part of the repository.
--
-- The kernel, the C library and libnuma are parameters: the records of Machine/ hold the calls as functions
-- on an abstract type W of states of the machine, and nothing is assumed of them. Machine/Laws.antt
-- states documented behaviour as records, which a theorem takes where it needs them. Examples/Kernel.antt is
-- a small machine that meets them, the other files of Examples/ run programs on it, and Examples/Faults.antt
-- runs them on machines that go wrong.
--
-- A program (Machine/Monad.antt) goes from a process to an outcome and a process. The outcome is a value or
-- the status of `return` from main and `exit`; the process holds the state of the machine and the trace of
-- the calls made so far, newest first. The trace has the answers of prctl and every allocation, mapping,
-- open file, signal handling and lowered limit with its release, the refused changes of the heap, and the accesses that a signal may answer (Machine/Events.antt). What is printed is not modelled, and
-- errno only where a test looks at it. A forked or cloned child runs as a whole when it starts, on the
-- state that the call gives it, and its status and last state are given to waitpid, so what the two do at
-- the same time is not interleaved.
--
-- Files and modules:
--   test1.c    Toggle        on, off, and the mask shown in between
--   test2.c    Inherit       a child of fork() has replication off: `child`, `main`
--   test3.c    Threaded      two threads that meet through a flag: `Handshake` their steps, `Calls` main
--   test4.c    NodeMask      masks for chosen nodes: one definition for each of its four tests
--   test5.c    Allocation    malloc and mmap; `large` is its third test
--   test6.c    Transition    fork() and execvp(): `image` is main with --child, `transit` the part from the fork on
--   test7.c    Delivery      signals that a process sends to itself: `await` is the loop that waits for the alarm
--   test8.c    SharedMemory  a counter and a string that a parent and its child share, and shm_open()
--   test9.c    Protection    mprotect() with accesses that SIGSEGV has to answer
--   test10.c   CopyOnWrite   a parent and its child write to the same private mapping
--   test11.c   Cycles        five cycles of ten pages; the array `allocations` is a list of addresses
--   test12.c   HeapGrowth    sbrk(), brk() and malloc()
--   test13.c   StackGrowth   recursion, alloca() and arrays of variable length
--   test14.c   Unmapping     munmap() of a whole mapping and of half of one
--   test15.c   Resizing      mremap(): one definition for each of its five tests
--   test16.c   Discard/Partial   MADV_DONTNEED; `goto cleanup` is the answer false of `body`
--   test27.c   Discard/Debug     the same on one half, with the errors counted
--   test33.c   Discard/Minimal   the same page by page
--   test17.c   Overlap       MAP_FIXED over a mapping in use
--   test18.c   Sections      four threads with a section each: `Worker` the threads, `Program` main,
--     `Reference` the same work done by one thread after the other
--   test19.c   PrivateFile   a private mapping of a file that a parent and its child modify
--   test20.c   SharedFork    vfork(), whose child uses the memory of its parent
--   test21.c   Processes     four workers at the same time: `worker_process`, `fork_workers`, `wait_workers`
--   test22.c   HugePages     transparent and explicit huge pages
--   test23.c   PageMigration   move_pages() and a memory policy
--   test24.c   Faulting      missing pages that a thread provides: `round` a round of the handler, `wait` an access
--   test25.c   Locking       mlock, munlock and mlockall; `pass` is the conjunction of its parts
--   test26.c   CloneFlags    clone() with and without CLONE_VM
--   test28.c   RegionKinds   stack, heap and mapped memory; a function of the test answers its int
--   test29.c   FileMapping   private and shared mappings of a file
--   test30.c   PolicyTests   NUMA memory policies; `under_policy` is its second to fourth test
--   test31.c   LimitTests    lowered resource limits
--   test32.c   Trapping      three accesses that a signal has to answer, and the handlers
--   test34.c   ThreadFork    threads before and after fork(): `Worker` a thread, `Program` main and the child
--   test35.c   ForkStress    fifteen forks while eight threads run: `Worker` the threads, `Calls` the child,
--     `Rounds` the state and the rounds of the loops of main, `Program` main
-- Loops has the loops that write and check patterns, which several tests share, and Loops/Words,
-- Loops/Bytes, Loops/Pages and Loops/Texts the lemmas on them; Base has names, C's tests and the signed
-- results of calls. The modules called Verdict, ChildVerdict, Detection, Isolation, Passing,
-- Children, Losing, Numbers, Pages, Patterns, Providing and Refused are about the status of a program, Workers about a process of
-- test21.c, Counters, Ending, Joining and Waiting about the end of threads
-- and loops, Steps, Interleaving, Refinement and Asking about the threads of test18.c, and those called Hygiene about what a
-- program leaves behind, which Suite collects.
--
-- Addresses, sizes and masks are natural numbers without a bound: no address computation of the tests
-- wraps, but for the results of sbrk() in test12.c, where the wrap-around is written out. A word is read
-- and written as a number, and the law for a store asks that it fits into 32 bits, a byte that it fits
-- into 8. Every loop counts down its number of rounds, which is the bound that the C loop has; the waiting
-- loops of test3.c and test24.c have none, and their numbers of rounds are arguments.
--
-- Threads (Machine/Threading.antt) run one step at a time. In test3.c the steps of both threads are a
-- relation. The programs of test18.c, test34.c and test35.c take a schedule, which says who makes the next step
-- (Machine/Pool.antt). In test34.c these are the parent, which creates and joins its threads, and the
-- threads that it has created. The run has fuel, `Program.enough`, which is more than the steps that all
-- threads can make; a thread that has ended makes none. In test35.c main itself is stepped, by the pick 0;
-- once the schedule is used up, main goes first, and `Program.enough` more steps end the run. Its array
-- child_pids starts with what was on the stack, an argument. A counter is changed as a whole, as
-- atomic_fetch_add does. In test18.c a step is one access to memory, a counting under the mutex, or the look
-- of main at the replication between its last creation and its wait; a thread that waits for
-- threads_can_exit makes no more steps, since its loop changes nothing.
--
-- Signals (Machine/Signalling.antt): an access that may be out of reach answers the signal that the kernel
-- sends for it, and the handler, with the value that siglongjmp() gives to sigsetjmp(), is a function on the
-- variables of the file. Signals that a process sends to itself are given by the call during which they are
-- delivered, and their handlers run then, in order. A signal for which the test has no handler ends the
-- process with the status that a shell shows for it.
--
-- Missing pages (Machine/MissingPages.antt): while an access of test24.c to its region waits, the handler thread makes
-- the rounds of its loop for which poll() and read() have answers, given by the access; then the access reads or
-- writes. An access that waits for ever is no part of a run, and neither is a waiting loop without end: where the
-- handler gets no page, the run stops without a status.
--
-- Not modelled: compileall.sh, which only calls the compiler.
-- The signal handler of test16.c is never installed and is left out.
pub mod Base
pub mod Machine
pub mod Loops
pub mod ForkStress
pub mod Sections
pub mod SharedFork
pub mod SharedMemory
pub mod StackGrowth
pub mod ThreadFork
pub mod Suite
pub mod Threaded
pub mod Toggle
pub mod Transition
pub mod Trapping
pub mod Unmapping
pub mod HugePages
pub mod Inherit
pub mod NodeMask
pub mod Allocation
pub mod Cycles
pub mod Delivery
pub mod Discard
pub mod PageMigration
pub mod PolicyTests
pub mod PrivateFile
pub mod Protection
pub mod Processes
pub mod RegionKinds
pub mod Resizing
pub mod Overlap
pub mod HeapGrowth
pub mod Locking
pub mod CloneFlags
pub mod CopyOnWrite
pub mod Faulting
pub mod FileMapping
pub mod LimitTests
pub mod Examples

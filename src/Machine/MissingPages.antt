-- ===== src/Machine/MissingPages.antt =====
-- userfaultfd(): missing pages that a thread of the process provides.
use mitosis_tests.Base.{ℕ, ℤ, Option, none, some, List}
use mitosis_tests.Machine.Events.{Event, descriptor, acquire, release, refused}
use mitosis_tests.Machine.Monad.{Program, observed}

-- What read() of the descriptor answers: EAGAIN, another error, fewer bytes than a message has,
-- a message of another kind, or the address of a missing page.
pub data Message : Type 0 where
  again read_failed partial unexpected : Message
  page_fault : ℕ → Message

-- What poll() answers: EINTR, another error, 0, or that there is something to read, with what is
-- then read.
pub data Poll : Type 0 where
  poll_interrupted poll_failed timeout : Poll
  readable : Message → Poll

pub record Userfaults (W : Type 0) : Type 0 where
  -- syscall(__NR_userfaultfd, O_CLOEXEC | O_NONBLOCK); `none` is a negative result
  pub userfaultfd : W → Option ℕ × W
  pub close : ℕ → W → W
  -- ioctl() with UFFDIO_API, with UFFDIO_REGISTER for a range, and with UFFDIO_COPY of `len` bytes
  -- from `src` to `dst`
  pub uffdio_api : (fd : ℕ) → W → ℤ × W
  pub uffdio_register : (fd start len : ℕ) → W → ℤ × W
  pub uffdio_copy : (fd dst src len : ℕ) → W → ℤ × W
  -- what poll() and read() answer to the thread that serves the faults until a load of this address
  -- can go on, and until pthread_join() of the thread returns. A load that waits for ever is no
  -- load.
  pub served : (a : ℕ) → W → List Poll × W
  pub joined : W → List Poll × W

abbrev granted : Option ℕ → Event
granted none = refused
granted (some fd) = acquire (descriptor fd)

module _ {W : Type 0} ⦃faults : Userfaults W⦄ where
  abbrev pub userfaultfd : Program W (Option ℕ)
  userfaultfd = observed faults.userfaultfd granted

  abbrev pub close_faults : ℕ → Program W (Unit {0})
  close_faults fd = observed (λ w. (tt, faults.close fd w)) (λ _. release (descriptor fd))

-- ===== src/Machine/Disk.antt =====
-- Files, by descriptor. Each test uses one file name of its own.
use mitosis_tests.Base.{ℕ, Option, none, some, List, ◌∷◌, ℤ}
use mitosis_tests.Machine.Events.{Event, descriptor, file, acquire, release, refused}
use mitosis_tests.Machine.Monad.{Program, observed, ok}

pub record Files (W : Type 0) : Type 0 where
  -- open(name, O_RDWR | O_CREAT | O_TRUNC, mode); `none` is a negative result
  pub open_file : W → Option ℕ × W
  -- write(fd, address, count)
  pub write : ℕ → ℕ → ℕ → W → ℤ × W
  pub close : ℕ → W → W
  pub unlink : W → W
  -- msync(address, count, MS_SYNC)
  pub msync : ℕ → ℕ → W → ℤ × W

abbrev opened : Option ℕ → List Event → List Event
opened none t = refused ∷ t
opened (some fd) t = acquire file ∷ acquire (descriptor fd) ∷ t

module _ {W : Type 0} ⦃files : Files W⦄ where
  abbrev pub open_file : Program W (Option ℕ)
  open_file s =
      let (a, w) = files.open_file s.env in (ok a, record { env = w; trace = opened a s.trace })

  abbrev pub close : ℕ → Program W (Unit {0})
  close fd = observed (λ w. (tt, files.close fd w)) (λ _. release (descriptor fd))

  abbrev pub unlink : Program W (Unit {0})
  unlink = observed (λ w. (tt, files.unlink w)) (λ _. release file)

-- Objects of shared memory, by descriptor, under the one name that the test uses.
pub record SharedObjects (W : Type 0) : Type 0 where
  -- shm_open(name, O_CREAT | O_RDWR, mode); `none` is a negative result
  pub shm_open : W → Option ℕ × W
  -- ftruncate(fd, length)
  pub ftruncate : ℕ → ℕ → W → W
  pub shm_unlink : W → W

module _ {W : Type 0} ⦃objects : SharedObjects W⦄ where
  abbrev pub shm_open : Program W (Option ℕ)
  shm_open s =
      let (a, w) = objects.shm_open s.env in (ok a, record { env = w; trace = opened a s.trace })

  abbrev pub shm_unlink : Program W (Unit {0})
  shm_unlink = observed (λ w. (tt, objects.shm_unlink w)) (λ _. release file)

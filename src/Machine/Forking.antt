-- ===== src/Machine/Forking.antt =====
-- Processes: fork, clone and waitpid. A child runs on the world that `fork` gives it; what it does
-- to shared state reaches the parent when it is waited for.
use mitosis_tests.Base.{ℕ, Option, Bool, true, ◌!=◌, ℤ}
use mitosis_tests.Machine.Monad.{Program, quietly, status_of, start, Process, ok}

pub data Status : Type 0 where
  exited : ℕ → Status
  killed : Status

pub record Tasks (W : Type 0) : Type 0 where
  -- the parent's result, the parent's world and the child's
  pub fork : W → record { pid : ℤ; parent : W; child : W }
  -- clone(child, stack, flags, arg): the flag tells whether CLONE_VM is set
  pub clone : Bool → W → record { pid : ℤ; parent : W; child : W }
  -- errno == EINVAL
  pub is_einval : W → Bool
  -- waitpid(pid): given the child's exit status and its last world
  pub waitpid : ℤ → ℕ → W → W → Status × W
  pub usleep : ℕ → W → W

-- Several children: waitpid() with its result, given the exit status and the last world of the child of that
-- number where there is one, and kill(pid, SIGTERM).
pub record Reaping (W : Type 0) : Type 0 where
  pub reap : ℤ → Option (ℕ × W) → W → record { result : ℤ; status : Status; world : W }
  pub terminate : ℤ → W → W

-- vfork(): the parent waits until the child has ended or executes another program, and goes on with the
-- memory as the child leaves it.
pub record Vforks (W : Type 0) : Type 0 where
  pub vfork : W → record { pid : ℤ; child : W; resume : W → W }
  -- execl("/bin/true", "true", NULL): the status with which that program ends, or `none` where it fails
  pub execl : W → Option ℕ × W

-- execvp(): whether it succeeded, and the world in which the new program, or else the old one, goes on
pub record Execs (W : Type 0) : Type 0 where
  pub execvp : W → Bool × W

-- A child that was started: what it will have done.
pub record Child (W : Type 0) : Type 0 where
  pub pid : ℤ
  pub exit_status : ℕ
  pub final : Process W

-- `!WIFEXITED(status) || WEXITSTATUS(status) != 0`
abbrev pub is_failure : Status → Bool
is_failure (exited n) = n != 0
is_failure killed = true

module _ {W : Type 0} ⦃sys : Tasks W⦄ where
  -- `pid = fork();` where `pid == 0` runs `child`
  abbrev pub fork : Program W (Unit {0}) → Program W (Child W)
  fork child s =
      let f = sys.fork s.env in
      let c = child (start f.child) in
      (
        ok (record { pid = f.pid; exit_status = status_of c.0; final = c.1 }),
        record s { env = f.parent },
      )

  -- `pid = clone(child, stack_top, flags, NULL);`
  abbrev pub clone : Bool → Program W (Unit {0}) → Program W (Child W)
  clone vm child s =
      let f = sys.clone vm s.env in
      let c = child (start f.child) in
      (
        ok (record { pid = f.pid; exit_status = status_of c.0; final = c.1 }),
        record s { env = f.parent },
      )

  abbrev pub waitpid : Child W → Program W Status
  waitpid c = quietly (sys.waitpid c.pid c.exit_status c.final.env)

-- ===== src/Supervisor/Processes.antt =====
-- Processes as main.cc sees them. What the kernel answers is a parameter: a function of the calls
-- made so far, newest first, and of the call.
use Prim.Native.String.{String}
use halo_keyboard.Prelude.{ℕ, ℤ, List}

-- fork for the named worker, waitpid(-1, …), waitpid(pid, …) and kill(pid, SIGTERM).
pub data Call : Type 0 where
  fork : String → Call
  wait_any : Call
  wait_for : ℤ → Call
  terminate : ℤ → Call

-- What the macros WIFEXITED and WIFSIGNALED tell apart.
pub data Status : Type 0 where
  exited : ℕ → Status
  signaled : ℕ → Status
  other : Status

pub record Reply : Type 0 where
  pub ret : ℤ
  pub errno : ℕ
  pub status : Status

abbrev pub Kernel : Type 0
Kernel = List Call → Call → Reply

abbrev pub eintr : ℕ
eintr = 4

abbrev pub enoent : ℕ
enoent = 2

abbrev pub enodev : ℕ
enodev = 19

abbrev pub exit_success : ℕ
exit_success = 0

abbrev pub exit_failure : ℕ
exit_failure = 1

-- ===== src/Supervisor/Workers.antt =====
-- SpawnWorker, WaitForWorker, StopWorker, Supervise and the last part of main.
use halo_keyboard.Prelude.{
  ℕ, zero, suc, ℤ, pos, negsuc, Bool, false, not, ◌&&◌, ◌||◌, List, [], ◌∷◌, Option, none, some,
  ltb_ℤ, leb_ℤ, ◌==◌, ◌==ℤ◌, if◌then◌else◌,
}
use halo_keyboard.System.{
  Failure, system_error, runtime_error, invalid_argument, out_of_range, undefined,
}
use halo_keyboard.Supervisor.Processes.{
  Call, fork, wait_any, wait_for, terminate, Status, exited, signaled, other, Reply, Kernel, eintr,
  enoent, enodev, exit_success, exit_failure,
}

-- IsExpectedSourceDeviceError
abbrev pub is_expected_source_device_error : ℕ → Bool
is_expected_source_device_error code = code == enoent || code == enodev

-- The status with which the child exits after its worker threw the exception; `none` is a worker
-- that returned.
abbrev pub worker_status : Option Failure → ℕ
worker_status none = exit_failure
worker_status (some (system_error code what)) =
    if is_expected_source_device_error code then exit_success else exit_failure
worker_status (some (runtime_error what)) = exit_failure
worker_status (some (invalid_argument what)) = exit_failure
worker_status (some out_of_range) = exit_failure
worker_status (some undefined) = exit_failure

abbrev pub is_interrupted : Reply → Bool
is_interrupted reply = ltb_ℤ reply.ret (pos 0) && reply.errno == eintr

-- A call that is repeated while it is interrupted, on fuel: `none` is a loop that has not ended.
unfoldable pub repeat_call : ℕ → Kernel → Call → List Call → Option (Reply × List Call)
repeat_call zero kernel call trace = none
repeat_call (suc fuel) kernel call trace =
    let rest = repeat_call fuel kernel call (call ∷ trace) in
    if is_interrupted (kernel trace call) then rest else some (kernel trace call, call ∷ trace)

abbrev pub and_then {ℓ κ} : {A : Type ℓ} {B : Type κ} → Option A → (A → Option B) → Option B
and_then none f = none
and_then (some a) f = f a

-- WaitForWorker
unfoldable pub wait_for_worker : ℕ → Kernel → List Call → Option (Reply × List Call)
wait_for_worker fuel kernel = repeat_call fuel kernel wait_any

unfoldable pub stop_worker : ℕ → Kernel → ℤ → List Call → Option (List Call)
stop_worker fuel kernel pid trace =
    if leb_ℤ pid (pos 0)
    then some trace
    else and_then (repeat_call fuel kernel (wait_for pid) (terminate pid ∷ trace)) λ r. some r.1

unfoldable pub stop_both : ℕ → Kernel → ℤ → ℤ → List Call → Option (List Call)
stop_both fuel kernel keyboard_pid touchpad_pid trace =
    and_then (stop_worker fuel kernel keyboard_pid trace) (stop_worker fuel kernel touchpad_pid)

abbrev pub is_expected_stop : Status → Bool
is_expected_stop (exited code) = code == exit_success
is_expected_stop (signaled signal) = false
is_expected_stop other = false

-- Supervise: the exit status and the calls.
unfoldable pub supervise : ℕ → Kernel → ℤ → ℤ → List Call → Option (ℕ × List Call)
supervise fuel kernel keyboard_pid touchpad_pid trace =
    and_then (wait_for_worker fuel kernel trace) λ (reply, waited).
      if ltb_ℤ reply.ret (pos 0)
      then (and_then (stop_both fuel kernel keyboard_pid touchpad_pid waited)
          λ stopped. some (exit_failure, stopped))
      else (and_then
          (if reply.ret ==ℤ keyboard_pid
            then stop_worker fuel kernel touchpad_pid waited
            else if reply.ret ==ℤ touchpad_pid
            then stop_worker fuel kernel keyboard_pid waited
            else stop_both fuel kernel keyboard_pid touchpad_pid waited)
          λ stopped.
            some (if is_expected_stop reply.status then exit_success else exit_failure, stopped))

-- The handler of main: every exception stops the workers that were started.
unfoldable pub give_up : ℕ → Kernel → ℤ → ℤ → List Call → Option (ℕ × List Call)
give_up fuel kernel keyboard_pid touchpad_pid trace =
    and_then (stop_both fuel kernel keyboard_pid touchpad_pid trace)
      λ stopped. some (exit_failure, stopped)

-- The try block of main in the parent process; the flag says whether the hardware configuration
-- could be loaded.
unfoldable pub main_program : ℕ → Kernel → Bool → Option (ℕ × List Call)
main_program fuel kernel loaded =
    let keyboard = fork "keyboard" in
    let touchpad = fork "touchpad" in
    let keyboard_pid = (kernel [] keyboard).ret in
    let touchpad_pid = (kernel (keyboard ∷ []) touchpad).ret in
    if not loaded
    then give_up fuel kernel (negsuc 0) (negsuc 0) []
    else if ltb_ℤ keyboard_pid (pos 0)
    then give_up fuel kernel (negsuc 0) (negsuc 0) (keyboard ∷ [])
    else if ltb_ℤ touchpad_pid (pos 0)
    then give_up fuel kernel keyboard_pid (negsuc 0) (touchpad ∷ keyboard ∷ [])
    else supervise fuel kernel keyboard_pid touchpad_pid (touchpad ∷ keyboard ∷ [])

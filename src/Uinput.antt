-- ===== src/Uinput.antt =====
-- uinput_device.h and uinput_device.cc: sending events through the virtual device.
pub mod Writes
pub mod Device
pub mod Axes
pub mod Requests
pub mod Calls
pub mod Life
mod Examples
use halo_keyboard.Prelude.{ℕ, ℤ, pos, ◌%◌, ◌^◌, List, ◌∷◌, not, ltb_ℤ, ◌==ℤ◌, if◌then◌else◌}
use halo_keyboard.Input.{InputEvent}
use halo_keyboard.System.{Syscall, write_event, Os, Result, ok, err, system_error, runtime_error}

-- sizeof(struct input_event) on a 64-bit kernel
abbrev pub sizeof_input_event : ℤ
sizeof_input_event = pos 24

-- The assignment of an int to the unsigned 16-bit fields of an event drops the upper bits.
abbrev pub event_of : ℕ → ℕ → ℤ → InputEvent
event_of ev_type ev_code value = record {
  type = ev_type % 2 ^ 16;
  code = ev_code % 2 ^ 16;
  value = value;
}

-- SendEvent on the device `fd`, after the calls `trace`; the new trace.
unfoldable pub send_event : Os → ℤ → List Syscall → ℕ → ℕ → ℤ → Result (List Syscall)
send_event os fd trace ev_type ev_code value =
    let call = write_event fd (event_of ev_type ev_code value) in
    let reply = os trace call in
    if ltb_ℤ reply.ret (pos 0)
    then err (system_error reply.errno "write uinput event")
    else if not (reply.ret ==ℤ sizeof_input_event)
    then err (runtime_error "short write while sending uinput event")
    else ok (call ∷ trace)

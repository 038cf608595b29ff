-- ===== src/Evdev.antt =====
-- evdev_source.h and evdev_source.cc: opening, polling and reading the sensor.
pub mod Polling
mod Examples
use Prim.Native.String.{String}
use Prim.Native.String
use halo_keyboard.Prelude.{
  ℕ, ℤ, pos, negsuc, ◌+◌, ◌*◌, ◌/◌, ◌%◌, Bool, true, false, not, ◌&&◌, List, ◌∷◌, Option, none,
  some, leb_ℤ, ltb_ℤ, ◌==ℤ◌, ◌+ℤ◌, if◌then◌else◌,
}
use halo_keyboard.Input.{InputEvent}
use halo_keyboard.System.{
  Os, Syscall, open_file, close_file, select_file, read_event, Filled, nothing, filled_bytes,
  filled_info, filled_event, filled_id, Result, ok, err, system_error, runtime_error, undefined,
  ◌>>=◌,
}
use halo_keyboard.Uinput.{sizeof_input_event}

abbrev pub no_timeout : ℤ
no_timeout = negsuc 0

-- A source is its descriptor; the constructors leave -1 there.
abbrev pub init : ℤ
init = negsuc 0

-- The destructor.
unfoldable pub destroy : ℤ → List Syscall → List Syscall
destroy source_fd trace = if leb_ℤ (pos 0) source_fd then close_file source_fd ∷ trace else trace

unfoldable pub open_source_device :
    Os → String → ℤ → List Syscall → Result ((ℤ × List Syscall) × Bool)
open_source_device os source_device_path source_fd trace =
    if leb_ℤ (pos 0) source_fd
    then ok ((source_fd, trace), false)
    else (let call = open_file source_device_path in
        let reply = os trace call in
        if ltb_ℤ reply.ret (pos 0)
        then err (system_error reply.errno (String.◌++◌ "open source device " source_device_path))
        else ok ((reply.ret, call ∷ trace), true))

-- The event that a read fills in; a read that fills in nothing leaves the zeroes of its caller.
abbrev pub event_in : Filled → InputEvent
event_in nothing = record { type = 0; code = 0; value = pos 0 }
event_in (filled_bytes bytes) = record { type = 0; code = 0; value = pos 0 }
event_in (filled_info info) = record { type = 0; code = 0; value = pos 0 }
event_in (filled_event ev) = ev
event_in (filled_id id) = record { type = 0; code = 0; value = pos 0 }

-- The last part of GetNextEvent.
unfoldable pub read_next : Os → ℤ → List Syscall → Result (Option InputEvent × List Syscall)
read_next os source_fd trace =
    let call = read_event source_fd in
    let reply = os trace call in
    if ltb_ℤ reply.ret (pos 0)
    then err (system_error reply.errno "read input device")
    else if not (reply.ret ==ℤ sizeof_input_event)
    then err (runtime_error "short read from input device")
    else ok (some (event_in reply.filled), call ∷ trace)

-- FD_SETSIZE: FD_SET is undefined for a descriptor that is negative or not below it.
abbrev pub fd_setsize : ℕ
fd_setsize = 1024

abbrev pub is_in_set : ℤ → Bool
is_in_set fd = leb_ℤ (pos 0) fd && ltb_ℤ fd (pos fd_setsize)

-- GetNextEvent with a destination, which its callers always give; `none` stands for false.
unfoldable pub get_next_event :
    Os → ℤ → ℤ → List Syscall → Result (Option InputEvent × List Syscall)
get_next_event os source_fd (negsuc n) trace = read_next os source_fd trace
get_next_event os source_fd (pos timeout_ms) trace =
    let call = select_file (source_fd +ℤ pos 1) (timeout_ms / 1000) ((timeout_ms % 1000) * 1000) in
    let reply = os trace call in
    if not (is_in_set source_fd)
    then err undefined
    else if ltb_ℤ reply.ret (pos 0)
    then err (system_error reply.errno "select input device")
    else if reply.ret ==ℤ pos 0
    then ok (none, call ∷ trace)
    else read_next os source_fd (call ∷ trace)

-- ===== src/Haptics/Driver.antt =====
-- haptics/ff_driver.h and ff_driver.cc.
use Prim.Native.String.{String}
use halo_keyboard.Prelude.{
  ℕ, ℤ, pos, negsuc, ◌+◌, ◌-◌, ◌*◌, ◌%◌, ◌^◌, Bool, true, false, List, ◌∷◌, ltb_ℤ, ◌==ℤ◌,
  if◌then◌else◌,
}
use halo_keyboard.Input.{ev_ff}
use halo_keyboard.System.{Syscall, open_file, close_file, write_event, Os}
use halo_keyboard.Uinput.{sizeof_input_event}

abbrev pub max_driver_input : ℤ
max_driver_input = pos 0xffff

abbrev pub ff_gain : ℕ
ff_gain = 0x60

pub record FfDriver : Type 0 where
  pub fd : ℤ

abbrev pub init : FfDriver
init = record { fd = negsuc 0 }

-- An int as the unsigned 16-bit `code` of an event.
abbrev pub u16_of : ℤ → ℕ
u16_of (pos n) = n % 2 ^ 16
u16_of (negsuc n) = (2 ^ 16 * (n + 1) - (n + 1)) % 2 ^ 16

unfoldable pub close_fd_if_valid : FfDriver → List Syscall → FfDriver × List Syscall
close_fd_if_valid d trace =
    if d.fd ==ℤ negsuc 0 then (d, trace) else (record d { fd = negsuc 0 }, close_file d.fd ∷ trace)

-- Init; a failure to set the gain is only logged.
unfoldable pub open_device :
    Os → String → FfDriver → List Syscall → (FfDriver × List Syscall) × Bool
unfolding close_fd_if_valid
open_device os device_path d trace =
    let (closed, trace') = close_fd_if_valid d trace in
    let fd = (os trace' (open_file device_path)).ret in
    let opened = open_file device_path ∷ trace' in
    if fd ==ℤ negsuc 0 then ((record closed { fd = fd }, opened), false) else (
      (
        record closed { fd = fd },
        write_event fd (record { type = ev_ff; code = ff_gain; value = max_driver_input }) ∷ opened,
      ),
      true,
    )

unfoldable pub play_effect : Os → FfDriver → ℤ → List Syscall → List Syscall × Bool
play_effect os d id trace =
    if d.fd ==ℤ negsuc 0
    then (trace, false)
    else if ltb_ℤ id (pos 0)
    then (trace, false)
    else (let play = write_event d.fd (record { type = ev_ff; code = u16_of id; value = pos 1 }) in
        (play ∷ trace, (os trace play).ret ==ℤ sizeof_input_event))

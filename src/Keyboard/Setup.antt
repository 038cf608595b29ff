-- ===== src/Keyboard/Setup.antt =====
-- What FakeKeyboard::Run does before it consumes events.
use Prim.Native.String.{String}
use halo_keyboard.Prelude.{ℤ, Bool, true, false, not, List, [], ◌∷◌, ◌==◌, if◌then◌else◌}
use halo_keyboard.Input.{ev_key}
use halo_keyboard.System.{Os, Syscall, Result, ok, err, runtime_error, ◌>>=◌}
use halo_keyboard.Uinput.Device.{
  UinputDevice, create_uinput_fd, enable_event_type, enable_key_event, finalize_uinput_creation,
}
use halo_keyboard.Evdev.{open_source_device}
use halo_keyboard.Keyboard.Key.{Key}

-- `key.event_code_fn_ && !EnableKeyEvent(key.event_code_fn_)`, negated, after the first code.
unfoldable pub enable_key : Os → ℤ → Key → List Syscall → List Syscall × Bool
enable_key os fd key trace =
    let (enabled, ok1) = enable_key_event os fd key.event_code trace in
    if not ok1
    then (enabled, false)
    else if key.event_code_fn == 0
    then (enabled, true)
    else enable_key_event os fd key.event_code_fn enabled

-- The loop over the layout.
unfoldable pub enable_keys : Os → ℤ → List Key → List Syscall → List Syscall × Bool
enable_keys os fd [] trace = (trace, true)
enable_keys os fd (key ∷ layout) trace =
    let enabled = enable_key os fd key trace in
    elim enabled.1 [ true ↦ enable_keys os fd layout enabled.0 | false ↦ enabled ]

unfoldable pub enable_keyboard_events : Os → ℤ → List Key → List Syscall → List Syscall × Bool
enable_keyboard_events os fd layout trace =
    let (enabled, ok1) = enable_event_type os fd ev_key trace in
    if not ok1 then (enabled, false) else enable_keys os fd layout enabled

abbrev cannot_create {ℓ} : {A : Type ℓ} → Result A
cannot_create = err (runtime_error "failed to create virtual keyboard device")

-- Run up to the call of Consume: the descriptor of the sensor, the device and the calls.
unfoldable pub set_up :
    Os
    → String
    → String
    → List Key
    → ℤ
    → UinputDevice
    → List Syscall
    → Result (ℤ × UinputDevice × List Syscall)
set_up os source_device_path keyboard_device_name layout source_fd device trace = do
  opened ← open_source_device os source_device_path source_fd trace
  if not opened.1
      then err (runtime_error "failed to open Halo keyboard input device")
      else (let (d1, t1, ok1) = create_uinput_fd os device opened.0.1 in
          let (t2, ok2) = enable_keyboard_events os d1.uinput_fd layout t1 in
          let (d3, t3, ok3) = finalize_uinput_creation os d1 keyboard_device_name t2 in
          if not ok1
          then cannot_create
          else if not ok2
          then cannot_create
          else if not ok3
          then cannot_create
          else ok (opened.0.0, d3, t3))

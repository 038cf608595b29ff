-- ===== src/Touchpad/Setup.antt =====
-- What FakeTouchpad::Run does before it consumes events.
use Prim.Native.String.{String}
use halo_keyboard.Prelude.{ℕ, ℤ, Bool, true, false, not, List, [], ◌∷◌, if◌then◌else◌}
use halo_keyboard.Input.{
  ev_key, btn_touch, btn_tool_finger, btn_tool_doubletap, btn_tool_tripletap, btn_tool_quadtap,
}
use halo_keyboard.System.{Os, Syscall, Result, ok, err, runtime_error, ◌>>=◌}
use halo_keyboard.Uinput.Device.{
  UinputDevice, Size, create_uinput_fd, enable_event_type, enable_key_event, copy_abs_output_events,
  finalize_uinput_creation,
}
use halo_keyboard.Evdev.{open_source_device}
use halo_keyboard.Floating.{Floating, Arithmetic}
use halo_keyboard.Touchpad.Region.{declared_size}
use halo_keyboard.Touchpad.Layout.{Loaded, resolutions}

-- A chain of EnableKeyEvent that stops at the first failure.
unfoldable pub enable_buttons : Os → ℤ → List ℕ → List Syscall → List Syscall × Bool
enable_buttons os fd [] trace = (trace, true)
enable_buttons os fd (button ∷ buttons) trace =
    let enabled = enable_key_event os fd button trace in
    elim enabled.1 [ true ↦ enable_buttons os fd buttons enabled.0 | false ↦ enabled ]

abbrev pub touchpad_buttons : List ℕ
touchpad_buttons =
    btn_touch ∷ btn_tool_finger ∷ btn_tool_doubletap ∷ btn_tool_tripletap ∷ btn_tool_quadtap ∷ []

unfoldable pub enable_touchpad_buttons : Os → ℤ → List Syscall → List Syscall × Bool
enable_touchpad_buttons os fd trace =
    let (enabled, ok1) = enable_event_type os fd ev_key trace in
    if not ok1 then (enabled, false) else enable_buttons os fd touchpad_buttons enabled

abbrev pub size_of : ℤ × ℤ → ℤ × ℤ → Size
size_of size res = record { width = size.0; height = size.1; xres = res.0; yres = res.1 }

-- The end of Run before the call of Consume, with the resolutions of the axes.
abbrev configure :
    Os → ℤ → String → Size → UinputDevice → List Syscall → Result (ℤ × UinputDevice × List Syscall)
configure os source_fd touchpad_device_name size d trace =
    let (t3, ok3) = copy_abs_output_events os d.uinput_fd source_fd size trace in
    let (d4, t4, ok4) = finalize_uinput_creation os d touchpad_device_name t3 in
    if not ok3
    then err (runtime_error "failed to configure virtual touchpad axes")
    else if not ok4
    then err (runtime_error "failed to create virtual touchpad device")
    else ok (source_fd, d4, t4)

-- Run up to the call of Consume: the descriptor of the sensor, the device and the calls.
unfoldable pub set_up :
    (F : Floating)
    → Arithmetic F
    → Os
    → String
    → String
    → Loaded F.Double
    → ℤ
    → UinputDevice
    → List Syscall
    → Result (ℤ × UinputDevice × List Syscall)
set_up F A os source_device_path touchpad_device_name loaded source_fd device trace = do
  opened ← open_source_device os source_device_path source_fd trace
  if not opened.1
      then err (runtime_error "failed to open Halo touchpad input device")
      else (let (d1, t1, ok1) = create_uinput_fd os device opened.0.1 in
          let (t2, ok2) = enable_touchpad_buttons os d1.uinput_fd t1 in
          let size = declared_size loaded.region in
          if not ok1
          then err (runtime_error "failed to open uinput for touchpad")
          else if not ok2
          then err (runtime_error "failed to enable virtual touchpad buttons")
          else resolutions F A loaded size >>= λ res.
              configure os opened.0.0 touchpad_device_name (size_of size res) d1 t2)

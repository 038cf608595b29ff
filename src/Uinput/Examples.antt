-- ===== src/Uinput/Examples.antt =====
-- Evaluations of the uinput module on a small system, and instances of its theorems.
use halo_keyboard.Prelude.{List, length, ◌≤◌, if◌then◌else◌, pos, ◌≡◌, refl, true, false, [], ◌∷◌}
use halo_keyboard.System.{
  Os, Reply, Filled, nothing, filled_bytes, ioctl, Request, get_event_types, get_abs_codes, Syscall,
  open_file, set_key, set_up_device, create_device,
}
use halo_keyboard.Uinput.Device.{
  UinputDevice, destroy, create_uinput_fd, enable_key_event, finalize_uinput_creation, Size,
  is_event_supported,
}
use halo_keyboard.Uinput.Life.{
  Life, constructed, created_fd, enabled_key, finalized, opened, closed, destroyed, was_created,
  Life_ends,
}

abbrev reply : Filled → Reply
reply filled = record { ret = pos 0; errno = 0; filled = filled }

abbrev answer : Request → Filled
answer get_event_types = filled_bytes (8 ∷ [])
answer get_abs_codes = filled_bytes (0 ∷ 0 ∷ 0 ∷ 0 ∷ 0 ∷ 0 ∷ 32 ∷ [])
answer _ = nothing

-- A source with the axis ABS_MT_POSITION_X and no other; every request succeeds.
abbrev os : Os
os trace (ioctl fd r) = reply (answer r)
os trace _ = reply nothing

abbrev size : Size
size = record { width = pos 400; height = pos 200; xres = pos 4; yres = pos 4 }

position_x_supported : is_event_supported (pos 53) (0 ∷ 0 ∷ 0 ∷ 0 ∷ 0 ∷ 0 ∷ 32 ∷ 0 ∷ []) ≡ true
unfolding is_event_supported
position_x_supported = refl

-- A code past the end of the array, and a negative one.
out_of_array : is_event_supported (pos 64) (0 ∷ 0 ∷ []) ≡ false
unfolding is_event_supported
out_of_array = refl

abbrev device : UinputDevice
device = record { uinput_fd = pos 0; device_created = true }

abbrev calls : List Syscall
calls =
    ioctl (pos 0) create_device
    ∷ ioctl (pos 0) (set_up_device "Halo Keyboard")
    ∷ ioctl (pos 0) (set_key 30)
    ∷ open_file "/dev/uinput"
    ∷ []

device-Life : Life os device calls
unfolding create_uinput_fd enable_key_event finalize_uinput_creation
device-Life =
    let l1 : Life os (record { uinput_fd = pos 0; device_created = false })
        (open_file "/dev/uinput" ∷ []) =
      created_fd constructed in
    let l2 : Life os (record { uinput_fd = pos 0; device_created = false })
        (ioctl (pos 0) (set_key 30) ∷ open_file "/dev/uinput" ∷ []) =
      enabled_key l1 30 in
    finalized l2 "Halo Keyboard"

Life_ends_example :
    (opened os (destroy device calls) ≡ closed (destroy device calls))
    × (length (closed (destroy device calls)) ≤ 1)
    × (destroyed (destroy device calls)
        ≡ (if was_created os calls then closed (destroy device calls) else []))
Life_ends_example = Life_ends os device calls device-Life

-- The device was destroyed and its descriptor closed.
device-closed : closed (destroy device calls) ≡ pos 0 ∷ []
unfolding closed destroy
device-closed = refl

-- ===== src/Haptics/Calls.antt =====
-- The constructor of TouchFFManager opens files, makes requests and sets a gain, and calls nothing
-- else of the system.
use Prim.Native.String.{String}
use halo_keyboard.Prelude.{ℤ, pos, ◌≡◌, List, All, arith, ◌==ℤ◌, ◌||◌, if◌then◌else◌}
use halo_keyboard.Input.{InputEvent, ev_ff}
use halo_keyboard.System.{
  Os, Syscall, open_file, close_file, write_event, ioctl, Request, upload_effect, ok,
}
use halo_keyboard.Floating.{Floating}
use halo_keyboard.Haptics.Driver.{
  FfDriver, init, open_device, close_fd_if_valid, ff_gain, max_driver_input,
}
use halo_keyboard.Haptics.Manager.{TouchFfManager}
use halo_keyboard.Haptics.Upload.{upload, register_ff, start_drivers, make_manager}

-- The event that sets the gain of a vibrator.
abbrev pub gain_event : InputEvent
gain_event = record { type = ev_ff; code = ff_gain; value = max_driver_input }

module _ (F : Floating) (os : Os) (P : Syscall → Type 0)
    (opens : (path : String) → P (open_file path)) (closes : (fd : ℤ) → P (close_file fd))
    (requests : (fd : ℤ) (r : Request) → P (ioctl fd r))
    (gains : (fd : ℤ) → P (write_event fd gain_event)) where
  open_device-All :
      (path : String) (d : FfDriver) (trace : List Syscall)
      → All P trace
      → All P (open_device os path d trace).0.1
  unfolding open_device close_fd_if_valid
  open_device-All path d trace h =
      let closed = (close_fd_if_valid d trace).1 in
      ground (arith, h, opens path, closes d.fd, gains (os closed (open_file path)).ret)

  upload-All :
      (d : FfDriver) (magnitude : F.Single) (time_ms : ℤ) (trace : List Syscall)
      → All P trace
      → All P (upload F os d magnitude time_ms trace).1
  unfolding upload
  upload-All d magnitude time_ms trace h =
      ground (arith, h, requests d.fd (upload_effect (F.strong_magnitude magnitude) time_ms))

  start_drivers-All :
      (touch_max_x rotation : ℤ) (magnitude : F.Double) (duration_ms : ℤ) (trace : List Syscall)
      → All P trace
      → All P (start_drivers F os touch_max_x rotation magnitude duration_ms trace).1
  unfolding start_drivers register_ff
  start_drivers-All touch_max_x rotation magnitude duration_ms trace h = upload-All _ _ _ _ (
      upload-All _ _ _ _ (
        open_device-All "/dev/right_vibrator" init _
          (open_device-All "/dev/left_vibrator" init trace h)))

  pub make_manager-All :
      (max_x max_y rotation : ℤ) (magnitude : F.Double) (duration_ms : ℤ) (trace : List Syscall)
      (r : TouchFfManager × List Syscall)
      → make_manager F os max_x max_y rotation magnitude duration_ms trace ≡ ok r
      → All P trace
      → All P r.1
  unfolding make_manager
  make_manager-All max_x max_y rotation magnitude duration_ms trace r e h =
      let width = if rotation ==ℤ pos 0 || rotation ==ℤ pos 180 then max_x else max_y in
      let q : r ≡ start_drivers F os width rotation magnitude duration_ms trace =
        ground (arith, e) in
      rw q (start_drivers-All width rotation magnitude duration_ms trace h)

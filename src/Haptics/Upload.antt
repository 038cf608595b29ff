-- ===== src/Haptics/Upload.antt =====
-- UploadEffect, RegisterFF and the constructor of TouchFFManager. Magnitudes are floating-point
-- numbers of the machine; what the code asks of them is a parameter.
use halo_keyboard.Prelude.{
  ℤ, pos, negsuc, not, ◌||◌, List, [], ◌∷◌, Map, insert, leb_ℤ, ltb_ℤ, ◌==ℤ◌, if◌then◌else◌,
}
use halo_keyboard.System.{
  Os, Syscall, ioctl, upload_effect, Filled, filled_id, Result, ok, err, invalid_argument, ◌>>=◌,
}
use halo_keyboard.Floating.{Floating}
use halo_keyboard.Haptics.Driver.{FfDriver, init, open_device}
use halo_keyboard.Haptics.Manager.{TouchKeyboardEvent, finger_down, touch_event_eq, TouchFfManager}

-- The id in an effect after the ioctl; it was -1 before.
abbrev id_in : Filled → ℤ
id_in (filled_id id) = id
id_in _ = negsuc 0

module _ (F : Floating) where
  -- UploadEffect: the id, -1 at a failure, and the calls.
  unfoldable pub upload : Os → FfDriver → F.Single → ℤ → List Syscall → ℤ × List Syscall
  upload os d magnitude time_ms trace =
      if d.fd ==ℤ negsuc 0
      then (negsuc 0, trace)
      else if not (F.is_finite_single magnitude)
          || F.is_negative_single magnitude
          || F.exceeds_one_single magnitude
          || leb_ℤ time_ms (pos 0)
          || ltb_ℤ (pos 1000) time_ms
      then (negsuc 0, trace)
      else (let call = ioctl d.fd (upload_effect (F.strong_magnitude magnitude) time_ms) in
          let reply = os trace call in
          if reply.ret ==ℤ negsuc 0
          then (negsuc 0, call ∷ trace)
          else (id_in reply.filled, call ∷ trace))

  -- `lib[event] = id`, for an effect that was uploaded.
  abbrev pub register_id :
      TouchKeyboardEvent → ℤ → Map TouchKeyboardEvent ℤ → Map TouchKeyboardEvent ℤ
  register_id event id lib = if leb_ℤ (pos 0) id then insert event id lib else lib

  unfoldable pub register_ff :
      Os
      → TouchKeyboardEvent
      → F.Double
      → ℤ
      → TouchFfManager
      → List Syscall
      → TouchFfManager × List Syscall
  register_ff os event magnitude length_ms m trace =
      let (left_id, t1) = upload os m.left_driver (F.to_single magnitude) length_ms trace in
      let (right_id, t2) = upload os m.right_driver (F.to_single magnitude) length_ms t1 in
      (
        record m {
          left_driver_fflib = register_id event left_id m.left_driver_fflib;
          right_driver_fflib = register_id event right_id m.right_driver_fflib;
        },
        t2,
      )

  abbrev width_along : ℤ → ℤ → ℤ → Result ℤ
  width_along max_x max_y rotation =
      if rotation ==ℤ pos 0 || rotation ==ℤ pos 180
      then ok max_x
      else if rotation ==ℤ pos 90 || rotation ==ℤ pos 270
      then ok max_y
      else err (invalid_argument "touch rotation must be 0, 90, 180, or 270")

  -- The drivers are opened and the effect is registered once the arguments were checked.
  unfoldable pub start_drivers :
      Os → ℤ → ℤ → F.Double → ℤ → List Syscall → TouchFfManager × List Syscall
  start_drivers os touch_max_x rotation magnitude duration_ms trace =
      let ((left, t1), found_left) = open_device os "/dev/left_vibrator" init trace in
      let ((right, t2), found_right) = open_device os "/dev/right_vibrator" init t1 in
      register_ff os finger_down magnitude duration_ms
        (record {
          left_driver = left;
          right_driver = right;
          left_driver_fflib = [];
          right_driver_fflib = [];
          touch_max_x = touch_max_x;
          touch_rotation = rotation;
        })
        t2

  -- The constructor.
  unfoldable pub make_manager :
      Os → ℤ → ℤ → ℤ → F.Double → ℤ → List Syscall → Result (TouchFfManager × List Syscall)
  make_manager os max_x max_y rotation magnitude duration_ms trace =
      if leb_ℤ max_x (pos 0) || leb_ℤ max_y (pos 0)
      then err (invalid_argument "touch dimensions must be positive")
      else if not (F.is_finite magnitude) || F.is_negative magnitude || F.exceeds_one magnitude
      then err (invalid_argument "haptic magnitude must be between 0.0 and 1.0")
      else if ltb_ℤ duration_ms (pos 1) || ltb_ℤ (pos 1000) duration_ms
      then err (invalid_argument "haptic duration must be between 1 and 1000 ms")
      else width_along max_x max_y rotation >>= λ touch_max_x.
          ok (start_drivers os touch_max_x rotation magnitude duration_ms trace)

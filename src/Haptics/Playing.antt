-- ===== src/Haptics/Playing.antt =====
-- What a TouchFFManager plays: one effect on the driver of the side, if that has it.
use halo_keyboard.Prelude.{
  ℤ, pos, negsuc, ◌<ℤ◌, ◌≡◌, true, false, ◌||◌, List, [], ◌∷◌, Option, none, some, Option-cases,
  inl, inr, Map, find, find-insert, arith, div_ℤ, leb_ℤ, ltb_ℤ, ◌==ℤ◌, if◌then◌else◌, Bool,
  -ℤ_parts, ◌-ℤ◌,
}
use halo_keyboard.Input.{ev_ff}
use halo_keyboard.System.{Os, Syscall, write_event, ok}
use halo_keyboard.Hardware.{is_supported_rotation}
use halo_keyboard.Haptics.Driver.{FfDriver, init, u16_of, play_effect, open_device}
use halo_keyboard.Haptics.Manager.{
  TouchKeyboardEvent, finger_down, touch_event_eq, TouchFfManager, position_along,
  play_effect_of_event, event_triggered,
}
use halo_keyboard.Floating.{Floating}
use halo_keyboard.Haptics.Upload.{upload, register_id, register_ff, start_drivers, make_manager}

-- The ids of the library can be played on the driver.
abbrev IsPlayable : FfDriver → Map TouchKeyboardEvent ℤ → Type 0
IsPlayable d lib =
    (event : TouchKeyboardEvent) (id : ℤ)
    → find event lib ≡ some id
    → ((d.fd ==ℤ negsuc 0) ≡ false) × (ltb_ℤ id (pos 0) ≡ false)

-- Every registered effect can be played, the width is positive and the rotation supported.
pub record IsReady (m : TouchFfManager) : Type 0 where
  pub left : IsPlayable m.left_driver m.left_driver_fflib
  pub right : IsPlayable m.right_driver m.right_driver_fflib
  pub width : pos 0 <ℤ m.touch_max_x
  pub rotation : is_supported_rotation m.touch_rotation ≡ true

-- A touch lies on the left half of the keyboard, seen on the sensor: the left end of the keyboard
-- is the low end of the axis that runs along it for a rotation of 0 or 270 degrees, and the high
-- end for 90 or 180.
abbrev pub is_on_left : TouchFfManager → ℤ → ℤ → Bool
is_on_left m x y =
    let half = div_ℤ m.touch_max_x 2 in
    if m.touch_rotation ==ℤ pos 90
    then ltb_ℤ (m.touch_max_x -ℤ half) y
    else if m.touch_rotation ==ℤ pos 180
    then ltb_ℤ (m.touch_max_x -ℤ half) x
    else if m.touch_rotation ==ℤ pos 270
    then ltb_ℤ y half
    else ltb_ℤ x half

abbrev pub driver_at : TouchFfManager → ℤ → ℤ → FfDriver
driver_at m x y = if is_on_left m x y then m.left_driver else m.right_driver

abbrev pub fflib_at : TouchFfManager → ℤ → ℤ → Map TouchKeyboardEvent ℤ
fflib_at m x y = if is_on_left m x y then m.left_driver_fflib else m.right_driver_fflib

mirrored : (width half v : ℤ) → ltb_ℤ (width -ℤ v) half ≡ ltb_ℤ (width -ℤ half) v
mirrored width half v = ground (arith, -ℤ_parts width v, -ℤ_parts width half)

position_along-is_on_left :
    (m : TouchFfManager) (x y : ℤ)
    → ltb_ℤ (position_along m x y) (div_ℤ m.touch_max_x 2) ≡ is_on_left m x y
unfolding position_along
position_along-is_on_left m x y =
    let half = div_ℤ m.touch_max_x 2 in
    ground (arith, mirrored m.touch_max_x half x, mirrored m.touch_max_x half y)

abbrev pub played : FfDriver → Option ℤ → List Syscall → List Syscall
played d none trace = trace
played d (some id) trace =
    write_event d.fd (record { type = ev_ff; code = u16_of id; value = pos 1 }) ∷ trace

play_effect_of_event-IsPlayable :
    (os : Os) (event : TouchKeyboardEvent) (d : FfDriver) (lib : Map TouchKeyboardEvent ℤ)
    (trace : List Syscall)
    → IsPlayable d lib
    → play_effect_of_event os event d lib trace ≡ played d (find event lib) trace
unfolding play_effect_of_event play_effect
play_effect_of_event-IsPlayable os event d lib trace p = elim (Option-cases (find event lib)) [
  | inl e ↦ ground (arith, e)
  | inr (id, e) ↦ ground (arith, e, p event id e)
]

-- In a manager that is ready, an event at a place of the sensor writes one request to play the
-- effect that the driver of its half of the keyboard has for it, and nothing if that has none; the
-- other driver is left alone. The half is told from the place by the rotation of the sensor: the
-- left one is at the low end of x for 0 degrees, at the high end of y for 90, at the high end of x
-- for 180 and at the low end of y for 270.
pub event_triggered_plays :
    (os : Os) (m : TouchFfManager) (event : TouchKeyboardEvent) (x y : ℤ) (trace : List Syscall)
    → IsReady m
    → event_triggered os m event x y trace
      ≡ played (driver_at m x y) (find event (fflib_at m x y)) trace
unfolding event_triggered
event_triggered_plays os m event x y trace r = ground (
  arith,
  position_along-is_on_left m x y,
  play_effect_of_event-IsPlayable os event m.left_driver m.left_driver_fflib trace r.left,
  play_effect_of_event-IsPlayable os event m.right_driver m.right_driver_fflib trace r.right,
)

module _ (F : Floating) (os : Os) where
  -- An id that is registered comes from an open driver.
  upload_open :
      (d : FfDriver) (magnitude : F.Single) (time_ms : ℤ) (trace : List Syscall)
      → leb_ℤ (pos 0) (upload F os d magnitude time_ms trace).0 ≡ true
      → (d.fd ==ℤ negsuc 0) ≡ false
  unfolding upload
  upload_open d magnitude time_ms trace h = ground arith

  register_id-IsPlayable :
      (d : FfDriver) (event : TouchKeyboardEvent) (id : ℤ) (lib : Map TouchKeyboardEvent ℤ)
      → (leb_ℤ (pos 0) id ≡ true → (d.fd ==ℤ negsuc 0) ≡ false)
      → IsPlayable d lib
      → IsPlayable d (register_id F event id lib)
  register_id-IsPlayable d event id lib o p e i f =
      ground (arith, o, p e i, find-insert event e id lib, f)

  start_drivers-IsReady :
      (width rotation : ℤ) (magnitude : F.Double) (duration_ms : ℤ) (trace : List Syscall)
      → pos 0 <ℤ width
      → is_supported_rotation rotation ≡ true
      → IsReady (start_drivers F os width rotation magnitude duration_ms trace).0
  unfolding start_drivers register_ff find
  start_drivers-IsReady width rotation magnitude duration_ms trace w s =
      let opened_left = (open_device os "/dev/left_vibrator" init trace).0 in
      let opened_right = (open_device os "/dev/right_vibrator" init opened_left.1).0 in
      record {
        left =
            register_id-IsPlayable opened_left.0 finger_down _ []
              (upload_open opened_left.0 (F.to_single magnitude) duration_ms _)
              λ event id e. ground arith;
        right =
            register_id-IsPlayable opened_right.0 finger_down _ []
              (upload_open opened_right.0 (F.to_single magnitude) duration_ms _)
              λ event id e. ground arith;
        width = w;
        rotation = s;
      }

  width_of : ℤ → ℤ → ℤ → ℤ
  width_of max_x max_y rotation =
      if rotation ==ℤ pos 0 || rotation ==ℤ pos 180 then max_x else max_y

  -- The constructor throws, or makes a manager that is ready: every registered effect can be
  -- played, the width is positive and the rotation supported.
  pub make_manager-IsReady :
      (max_x max_y rotation : ℤ) (magnitude : F.Double) (duration_ms : ℤ) (trace : List Syscall)
      (r : TouchFfManager × List Syscall)
      → make_manager F os max_x max_y rotation magnitude duration_ms trace ≡ ok r
      → IsReady r.0
  unfolding make_manager width_of
  make_manager-IsReady max_x max_y rotation magnitude duration_ms trace r e =
      let q : r
          ≡ start_drivers F os (width_of max_x max_y rotation) rotation magnitude duration_ms
              trace =
        ground (arith, e) in
      rw q (
        start_drivers-IsReady (width_of max_x max_y rotation) rotation magnitude duration_ms trace
          (ground (arith, e)) (ground (arith, e)))

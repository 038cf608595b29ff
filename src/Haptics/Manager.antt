-- ===== src/Haptics/Manager.antt =====
-- haptics/touch_ff_manager.h and touch_ff_manager.cc.
use halo_keyboard.Prelude.{
  ℤ, pos, ◌≡◌, ◌↔◌, Bool, true, List, none, some, Eq, Map, find, arith, ◌-ℤ◌, ltb_ℤ, ◌==ℤ◌, div_ℤ,
  if◌then◌else◌,
}
use halo_keyboard.System.{Syscall, Os}
use halo_keyboard.Haptics.Driver.{FfDriver, play_effect}

pub data TouchKeyboardEvent : Type 0 where
  finger_down send_key finger_up : TouchKeyboardEvent

abbrev event_number : TouchKeyboardEvent → ℤ
event_number finger_down = pos 0
event_number send_key = pos 1
event_number finger_up = pos 2

abbrev same_event : TouchKeyboardEvent → TouchKeyboardEvent → Bool
same_event a b = event_number a ==ℤ event_number b

pub same_event_iff : (a b : TouchKeyboardEvent) → (same_event a b ≡ true) ↔ (a ≡ b)
same_event_iff a b = ground arith

instance abbrev pub touch_event_eq : Eq TouchKeyboardEvent
touch_event_eq = record { beq = same_event; beq_iff = same_event_iff }

pub record TouchFfManager : Type 0 where
  pub left_driver : FfDriver
  pub right_driver : FfDriver
  pub left_driver_fflib : Map TouchKeyboardEvent ℤ
  pub right_driver_fflib : Map TouchKeyboardEvent ℤ
  pub touch_max_x : ℤ
  pub touch_rotation : ℤ

unfoldable pub play_effect_of_event :
    Os → TouchKeyboardEvent → FfDriver → Map TouchKeyboardEvent ℤ → List Syscall → List Syscall
play_effect_of_event os event driver lib trace = elim (find event lib) [
  | none ↦ trace
  | some id ↦ (play_effect os driver id trace).0
]

-- The position along the width of the keyboard, by the rotation of the sensor.
unfoldable pub position_along : TouchFfManager → ℤ → ℤ → ℤ
position_along m x y =
    if m.touch_rotation ==ℤ pos 0
    then x
    else if m.touch_rotation ==ℤ pos 90
    then m.touch_max_x -ℤ y
    else if m.touch_rotation ==ℤ pos 180
    then m.touch_max_x -ℤ x
    else if m.touch_rotation ==ℤ pos 270
    then y
    else x

unfoldable pub event_triggered :
    Os → TouchFfManager → TouchKeyboardEvent → ℤ → ℤ → List Syscall → List Syscall
event_triggered os m event x y trace =
    if ltb_ℤ (position_along m x y) (div_ℤ m.touch_max_x 2)
    then play_effect_of_event os event m.left_driver m.left_driver_fflib trace
    else play_effect_of_event os event m.right_driver m.right_driver_fflib trace

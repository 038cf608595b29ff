-- ===== src/Touchpad/Region.antt =====
-- The state of a FakeTouchpad, its region of the sensor, and the coordinates of the virtual device.
use halo_keyboard.Prelude.{
  ℕ, ℤ, pos, Bool, true, false, List, ◌-ℤ◌, ltb_ℤ, ◌==ℤ◌, ◌||◌, if◌then◌else◌,
}
use halo_keyboard.Input.{ev_abs, abs_mt_position_x, abs_mt_position_y}
use halo_keyboard.System.{Syscall}
use halo_keyboard.Multitouch.EventKey.{EventKey, is_x, is_y}
use halo_keyboard.Multitouch.Slot.{Slot, find_value_by_event}
use halo_keyboard.Multitouch.StateMachine.{MtStateMachine}

pub record Region : Type 0 where
  pub rotation : ℤ
  pub xmin : ℤ
  pub xmax : ℤ
  pub ymin : ℤ
  pub ymax : ℤ

-- `fd` is the descriptor of the uinput device; `trace` are the system calls made so far, newest
-- first.
pub record Touchpad : Type 0 where
  pub region : Region
  pub sm : MtStateMachine
  pub slot_memberships : List Bool
  pub fd : ℤ
  pub trace : List Syscall

unfoldable pub contains : Region → Slot → Bool
contains g slot =
    let x = find_value_by_event slot ev_abs abs_mt_position_x in
    let y = find_value_by_event slot ev_abs abs_mt_position_y in
    if ltb_ℤ x g.xmin || ltb_ℤ g.xmax x
    then false
    else if ltb_ℤ y g.ymin || ltb_ℤ g.ymax y
    then false
    else true

-- `code` and `value` of PassEventsThrough after its two switches.
unfoldable pub to_region : Region → EventKey → ℤ → ℕ × ℤ
to_region g key value =
    if is_x key
    then (let shifted = value -ℤ g.xmin in
        if g.rotation ==ℤ pos 0
        then (key.code, shifted)
        else if g.rotation ==ℤ pos 90
        then (abs_mt_position_y, shifted)
        else if g.rotation ==ℤ pos 180
        then (key.code, g.xmax -ℤ g.xmin -ℤ shifted)
        else if g.rotation ==ℤ pos 270
        then (abs_mt_position_y, g.xmax -ℤ g.xmin -ℤ shifted)
        else (key.code, shifted))
    else if is_y key
    then (let shifted = value -ℤ g.ymin in
        if g.rotation ==ℤ pos 0
        then (key.code, shifted)
        else if g.rotation ==ℤ pos 90
        then (abs_mt_position_x, g.ymax -ℤ g.ymin -ℤ shifted)
        else if g.rotation ==ℤ pos 180
        then (key.code, g.ymax -ℤ g.ymin -ℤ shifted)
        else if g.rotation ==ℤ pos 270
        then (abs_mt_position_x, shifted)
        else (key.code, shifted))
    else (key.code, value)

-- The width and the height that Run gives to the axes of the virtual device.
unfoldable pub declared_size : Region → ℤ × ℤ
declared_size g =
    if g.rotation ==ℤ pos 0 || g.rotation ==ℤ pos 180
    then (g.xmax -ℤ g.xmin, g.ymax -ℤ g.ymin)
    else if g.rotation ==ℤ pos 90 || g.rotation ==ℤ pos 270
    then (g.ymax -ℤ g.ymin, g.xmax -ℤ g.xmin)
    else (pos 0, pos 0)

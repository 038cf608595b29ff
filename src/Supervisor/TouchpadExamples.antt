-- ===== src/Supervisor/TouchpadExamples.antt =====
-- The touchpad worker on a small configuration: a finger arrives in the region.
use halo_keyboard.Prelude.{
  negsuc, ℤ, pos, ◌≡◌, refl, some, ◌+ℤ◌, ◌-ℤ◌, ℕ, List, [], ◌∷◌, Bool, true, false, Option, none,
  get_elem?, count_if, find, insert,
}
use halo_keyboard.System.{
  ok, Os, Syscall, open_file, close_file, write_event, ioctl, select_file, read_event, Filled,
  nothing, filled_event, filled_bytes, Reply, Request, get_event_types, get_abs_codes, err, Result,
}
use halo_keyboard.Floating.Whole.{whole, on_whole, whole-IsMonotone}
use halo_keyboard.Touchpad.Layout.{
  check_row, turned, region_of, load_layout, make_layout, resolutions,
}
use halo_keyboard.Touchpad.Geometry.{IsUpright}
use halo_keyboard.Input.{
  InputEvent, ev_abs, ev_syn, syn_report, abs_mt_position_x, abs_mt_position_y, abs_mt_tracking_id,
}
use halo_keyboard.Uinput.Device.{
  create_uinput_fd, finalize_uinput_creation, enable_event_type, enable_key_event, enable_abs_event,
  copy_abs_output_events, copy_axes, copy_if_supported, copy_axis, is_event_supported, resized,
}
use halo_keyboard.Uinput.{send_event}
use halo_keyboard.Evdev
use halo_keyboard.Evdev.{get_next_event, read_next, no_timeout}
use halo_keyboard.Multitouch.Slot.{find_value_by_event, Slot}
use halo_keyboard.Multitouch.StateMachine.{add_event}
use halo_keyboard.Touchpad.Region.{Touchpad, contains, to_region, declared_size}
use halo_keyboard.Touchpad.Setup.{set_up, enable_buttons, enable_touchpad_buttons}
use halo_keyboard.Touchpad.Sync.{
  round, sync_touch_events, sync_slots, sync_slot, send_value, pass_events_through,
  send_touchpad_btn_events,
}
use halo_keyboard.Touchpad.Buttons.{IsSteady}
use halo_keyboard.Touchpad.Loop.{consume_once, Loop, enter, again}
use halo_keyboard.Touchpad.Sessions.{new_touchpad}
use halo_keyboard.Touchpad.LayoutExamples.{config, csv, loaded, config-IsMeasured}
use halo_keyboard.Supervisor.Children.{start_touchpad}
use halo_keyboard.Supervisor.Showing.{touchpad_worker_mirrors, touchpad_worker_reads_back}
use halo_keyboard.Multitouch.EventKey.{event_key_eq}
use halo_keyboard.Touchpad.Reading.{reading, events_written}
use halo_keyboard.Touchpad.Passing.{axis, source_code, value_shown}
use halo_keyboard.Multitouch.Frames.{after}
use halo_keyboard.Uinput.Writes.{Ends}

abbrev axis_event : ℕ → ℤ → InputEvent
axis_event code value = record { type = ev_abs; code = code; value = value }

abbrev report : InputEvent
report = record { type = ev_syn; code = syn_report; value = pos 0 }

-- A finger arrives at (100, 700), which is in the region.
abbrev events : List InputEvent
events =
    axis_event abs_mt_position_x (pos 100)
    ∷ axis_event abs_mt_position_y (pos 700)
    ∷ axis_event abs_mt_tracking_id (pos 7)
    ∷ report
    ∷ []

abbrev is_read : Syscall → Bool
is_read (open_file path) = false
is_read (close_file fd) = false
is_read (ioctl fd request) = false
is_read (write_event fd ev) = false
is_read (select_file nfds sec usec) = false
is_read (read_event fd) = true

abbrev filled_by : Option InputEvent → Filled
filled_by none = nothing
filled_by (some ev) = filled_event ev

abbrev replied : ℤ → Filled → Reply
replied ret filled = record { ret = ret; errno = 0; filled = filled }

-- The sensor has absolute axes, and of these ABS_MT_POSITION_X and ABS_MT_POSITION_Y.
abbrev answer : Request → Filled
answer get_event_types = filled_bytes (8 ∷ [])
answer get_abs_codes = filled_bytes (0 ∷ 0 ∷ 0 ∷ 0 ∷ 0 ∷ 0 ∷ 96 ∷ [])
answer _ = nothing

-- Every file is opened on descriptor 5, every request succeeds and every write is complete. The
-- events are read one after the other.
abbrev os : Os
os trace (open_file path) = replied (pos 5) nothing
os trace (close_file fd) = replied (pos 0) nothing
os trace (ioctl fd request) = replied (pos 0) (answer request)
os trace (write_event fd ev) = replied (pos 24) nothing
os trace (select_file nfds sec usec) = replied (pos 1) nothing
os trace (read_event fd) = replied (pos 24) (filled_by (get_elem? events (count_if is_read trace)))

abbrev tp_of : Result (ℤ × Touchpad) → Touchpad
tp_of (ok r) = r.1
tp_of (err e) = new_touchpad loaded.region (negsuc 0) []

abbrev worker : Result (ℤ × Touchpad)
worker = start_touchpad whole on_whole os config "touchpad.csv" csv

abbrev new : Touchpad
new = tp_of worker

started : worker ≡ ok (pos 5, new)
unfolding start_touchpad make_layout load_layout check_row turned region_of ◌+ℤ◌ ◌-ℤ◌ set_up
    resolutions declared_size create_uinput_fd finalize_uinput_creation enable_touchpad_buttons
    enable_buttons enable_event_type enable_key_event enable_abs_event copy_abs_output_events
    copy_axes copy_if_supported copy_axis is_event_supported resized Evdev.open_source_device
started = refl

abbrev state_of : Result Touchpad → Touchpad
state_of (ok t) = t
state_of (err e) = new

abbrev step : Touchpad → Touchpad
step t = state_of (consume_once os (pos 5) t)

abbrev with_id : Touchpad
with_id = step (step (step new))

abbrev touched : Touchpad
touched = step with_id

with_id-Loop : Loop os (pos 5) new with_id
unfolding start_touchpad make_layout load_layout check_row turned region_of ◌+ℤ◌ set_up resolutions
    declared_size create_uinput_fd finalize_uinput_creation enable_touchpad_buttons enable_buttons
    enable_event_type enable_key_event enable_abs_event copy_abs_output_events copy_axes
    copy_if_supported copy_axis is_event_supported resized Evdev.open_source_device ◌-ℤ◌
    consume_once get_next_event read_next round add_event sync_touch_events sync_slots sync_slot
    send_value pass_events_through send_touchpad_btn_events send_event contains to_region
    find_value_by_event find insert
with_id-Loop =
    let l1 : Loop os (pos 5) new (step new) = again enter refl in
    let l2 : Loop os (pos 5) new (step (step new)) = again l1 refl in again l2 refl

touched-Loop : Loop os (pos 5) new touched
unfolding start_touchpad make_layout load_layout check_row turned region_of ◌+ℤ◌ set_up resolutions
    declared_size create_uinput_fd finalize_uinput_creation enable_touchpad_buttons enable_buttons
    enable_event_type enable_key_event enable_abs_event copy_abs_output_events copy_axes
    copy_if_supported copy_axis is_event_supported resized Evdev.open_source_device ◌-ℤ◌
    consume_once get_next_event read_next round add_event sync_touch_events sync_slots sync_slot
    send_value pass_events_through send_touchpad_btn_events send_event contains to_region
    find_value_by_event find insert
touched-Loop = again with_id-Loop refl

report_read :
    get_next_event os (pos 5) no_timeout with_id.trace
    ≡ ok (some report, read_event (pos 5) ∷ with_id.trace)
unfolding start_touchpad make_layout load_layout check_row turned region_of ◌+ℤ◌ set_up resolutions
    declared_size create_uinput_fd finalize_uinput_creation enable_touchpad_buttons enable_buttons
    enable_event_type enable_key_event enable_abs_event copy_abs_output_events copy_axes
    copy_if_supported copy_axis is_event_supported resized Evdev.open_source_device ◌-ℤ◌
    consume_once get_next_event read_next round add_event sync_touch_events sync_slots sync_slot
    send_value pass_events_through send_touchpad_btn_events send_event contains to_region
    find_value_by_event find insert
report_read = refl

touchpad_worker_mirrors_example : IsSteady touched × IsUpright (pos 270) touched.region
touchpad_worker_mirrors_example =
    touchpad_worker_mirrors whole on_whole whole-IsMonotone config config-IsMeasured os
      "touchpad.csv" csv (pos 5) new touched started touched-Loop

touchpad_worker_reads_back_example :
    Ends os
      (λ tp'.
        (i : ℕ) (slot : Slot) (v : ℤ)
        → get_elem? with_id.sm.slots i ≡ some slot
        → contains with_id.region slot ≡ true
        → find (axis (source_code with_id.region abs_mt_position_x)) slot ≡ some v
        → reading (after (events_written tp'.trace)) i abs_mt_position_x
          ≡ value_shown with_id.region abs_mt_position_x v)
      (consume_once os (pos 5) with_id)
unfolding start_touchpad make_layout load_layout check_row turned region_of ◌+ℤ◌ set_up resolutions
    declared_size create_uinput_fd finalize_uinput_creation enable_touchpad_buttons enable_buttons
    enable_event_type enable_key_event enable_abs_event copy_abs_output_events copy_axes
    copy_if_supported copy_axis is_event_supported resized Evdev.open_source_device ◌-ℤ◌
    consume_once get_next_event read_next round add_event sync_touch_events sync_slots sync_slot
    send_value pass_events_through send_touchpad_btn_events send_event contains to_region
    find_value_by_event find insert
touchpad_worker_reads_back_example =
    touchpad_worker_reads_back whole on_whole config os "touchpad.csv" csv (pos 5) new with_id
      report (read_event (pos 5) ∷ with_id.trace) abs_mt_position_x started with_id-Loop report_read
      refl refl

-- ===== src/Supervisor/KeyboardExamples.antt =====
-- The keyboard worker on a small layout: a key is typed on it.
use mathlib.Core.Path.{subst}
use halo_keyboard.Prelude.{
  ℕ, pos, ◌≡◌, refl, List, [], ◌∷◌, none, some, arith, find, int_eq, insert, length, All, ◌+ℤ◌,
  ◌-ℤ◌, Option, sym, ap, ◌∙◌, ◌<◌,
}
use halo_keyboard.Input.{InputEvent}
use halo_keyboard.System.{Syscall, ok, ok-injective, Safe}
use halo_keyboard.Floating.Whole.{whole, on_whole}
use halo_keyboard.Uinput.Device.{
  create_uinput_fd, finalize_uinput_creation, enable_event_type, enable_key_event,
}
use halo_keyboard.Evdev
use halo_keyboard.Keyboard.State.{Keyboard}
use halo_keyboard.Keyboard.Layout.{
  check_key, edges_of, key_of, load_key, load_rows, load_layout, make_layout,
}
use halo_keyboard.Keyboard.Setup.{set_up, enable_keyboard_events, enable_keys, enable_key}
use halo_keyboard.Keyboard.Codes.{is_key_offered}
use halo_keyboard.Keyboard.Coded.{IsHonest}
use halo_keyboard.Supervisor.Children.{start_keyboard}
use halo_keyboard.Supervisor.Typing.{keyboard_worker_sends_enabled}
use halo_keyboard.Haptics.Upload.{make_manager, upload, register_ff, start_drivers}
use halo_keyboard.Haptics.Driver.{open_device, close_fd_if_valid, play_effect}
use halo_keyboard.Uinput.{send_event}
use halo_keyboard.Multitouch.Slot.{find_value_by_event}
use halo_keyboard.Multitouch.StateMachine.{add_event, fill_snapshot, fill, finger_of}
use halo_keyboard.Haptics.Manager.{event_triggered, play_effect_of_event, position_along}
use halo_keyboard.Keyboard.Key.{contains}
use halo_keyboard.Keyboard.Time.{timespec_is_later, add_ms_to_timespec, carry}
use halo_keyboard.Keyboard.Queue.{enqueue}
use halo_keyboard.Keyboard.Fingers.{
  process_incoming_snapshot, process_fingers, process_finger, arrive,
  generate_event_for_arriving_finger, key_at, leave_all, leave, layout_at,
}
use halo_keyboard.Keyboard.Consume.{
  tap_rejection, is_outside, round, flush, fire_pending, fire_event, send_key, timeout_ms, narrow,
}
use halo_keyboard.Evdev.{get_next_event, read_next}
use halo_keyboard.Keyboard.Loop.{consume_once, Loop, enter, again, poll, CanPoll}
use halo_keyboard.Keyboard.Soundness.{IsSound}
use halo_keyboard.Keyboard.Rounds.{CanReport}
use halo_keyboard.Keyboard.LayoutExamples.{config, csv}
use halo_keyboard.Keyboard.Progress.{Loop-IsSound, consume_once-Safe, timeout_fires}
use halo_keyboard.Uinput.Writes.{Ends}
use halo_keyboard.Supervisor.KeyboardRun.{
  report, x_event, y_event, pressure_event, id_event, os, options, new, sec, step, at_x, at_xy,
  with_pressure, with_id, esc_down, arrived, waited, typed,
}

started : start_keyboard whole on_whole os config options "layout.csv" csv ≡ ok (pos 5, new)
unfolding start_keyboard make_manager start_drivers play_effect close_fd_if_valid open_device upload
    register_ff make_layout load_layout load_rows load_key check_key edges_of key_of consume_once
    get_next_event read_next timeout_ms narrow round flush fire_pending fire_event send_key
    send_event add_event find insert process_incoming_snapshot process_fingers process_finger arrive
    generate_event_for_arriving_finger key_at leave_all leave tap_rejection is_outside layout_at
    timespec_is_later find_value_by_event fill_snapshot fill finger_of enqueue contains
    event_triggered play_effect_of_event position_along add_ms_to_timespec carry ◌+ℤ◌ ◌-ℤ◌ set_up
    create_uinput_fd finalize_uinput_creation enable_keyboard_events enable_keys enable_key
    enable_event_type enable_key_event Evdev.open_source_device
started = refl

polls :
    (n : ℕ) (k : Keyboard) (o : Option InputEvent) (t : List Syscall)
    → poll os (sec n) (pos 5) k ≡ ok (o, t)
    → CanReport k o
    → CanPoll os (sec n) (pos 5) k
polls n k o t p c o' t' e = subst (CanReport k) (ap (λ r. r.0) (ok-injective (sym p ∙ e))) c

arrived-Loop : Loop os (pos 5) new arrived
unfolding start_keyboard make_manager start_drivers play_effect close_fd_if_valid open_device upload
    register_ff make_layout load_layout load_rows load_key check_key edges_of key_of consume_once
    get_next_event read_next timeout_ms narrow round flush fire_pending fire_event send_key
    send_event add_event find insert process_incoming_snapshot process_fingers process_finger arrive
    generate_event_for_arriving_finger key_at leave_all leave tap_rejection is_outside layout_at
    timespec_is_later find_value_by_event fill_snapshot fill finger_of enqueue contains
    event_triggered play_effect_of_event position_along add_ms_to_timespec carry ◌+ℤ◌ ◌-ℤ◌ set_up
    create_uinput_fd finalize_uinput_creation enable_keyboard_events enable_keys enable_key
    enable_event_type enable_key_event Evdev.open_source_device
arrived-Loop =
    let l1 : Loop os (pos 5) new at_x =
      again enter (sec 0) (sec 1) (polls 0 new (some x_event) _ refl λ e. cc) refl in
    let l2 : Loop os (pos 5) new at_xy =
      again l1 (sec 0) (sec 1) (polls 0 at_x (some y_event) _ refl λ e. cc) refl in
    let l3 : Loop os (pos 5) new with_pressure =
      again l2 (sec 0) (sec 1) (polls 0 at_xy (some pressure_event) _ refl λ e. cc) refl in
    let l4 : Loop os (pos 5) new with_id =
      again l3 (sec 0) (sec 1) (polls 0 with_pressure (some id_event) _ refl λ e. cc) refl in
    again l4 (sec 0) (sec 1) (polls 0 with_id (some report) _ refl λ e. ((refl, λ f. refl), tt))
      refl

step_types : step 1 arrived ≡ ok typed
unfolding start_keyboard make_manager start_drivers play_effect close_fd_if_valid open_device upload
    register_ff make_layout load_layout load_rows load_key check_key edges_of key_of consume_once
    get_next_event read_next timeout_ms narrow round flush fire_pending fire_event send_key
    send_event add_event find insert process_incoming_snapshot process_fingers process_finger arrive
    generate_event_for_arriving_finger key_at leave_all leave tap_rejection is_outside layout_at
    timespec_is_later find_value_by_event fill_snapshot fill finger_of enqueue contains
    event_triggered play_effect_of_event position_along add_ms_to_timespec carry ◌+ℤ◌ ◌-ℤ◌ set_up
    create_uinput_fd finalize_uinput_creation enable_keyboard_events enable_keys enable_key
    enable_event_type enable_key_event Evdev.open_source_device
step_types = refl

arrived-CanPoll : CanPoll os (sec 1) (pos 5) arrived
unfolding start_keyboard make_manager start_drivers play_effect close_fd_if_valid open_device upload
    register_ff make_layout load_layout load_rows load_key check_key edges_of key_of consume_once
    get_next_event read_next timeout_ms narrow round flush fire_pending fire_event send_key
    send_event add_event find insert process_incoming_snapshot process_fingers process_finger arrive
    generate_event_for_arriving_finger key_at leave_all leave tap_rejection is_outside layout_at
    timespec_is_later find_value_by_event fill_snapshot fill finger_of enqueue contains
    event_triggered play_effect_of_event position_along add_ms_to_timespec carry ◌+ℤ◌ ◌-ℤ◌ set_up
    create_uinput_fd finalize_uinput_creation enable_keyboard_events enable_keys enable_key
    enable_event_type enable_key_event Evdev.open_source_device
arrived-CanPoll = polls 1 arrived none _ refl tt

typed-Loop : Loop os (pos 5) new typed
typed-Loop = again arrived-Loop (sec 1) (sec 2) arrived-CanPoll step_types

keyboard_worker_sends_enabled_example :
    IsSound typed × All (IsHonest (λ c. is_key_offered os new.fd c new.trace)) typed.trace
keyboard_worker_sends_enabled_example =
    keyboard_worker_sends_enabled whole on_whole os config options "layout.csv" csv (pos 5) new
      typed started typed-Loop

new-IsSound : IsSound new
new-IsSound =
    (keyboard_worker_sends_enabled whole on_whole os config options "layout.csv" csv (pos 5) new new
      started enter).0

consume_once-Safe_example : Safe IsSound (consume_once os (sec 1) (sec 2) (pos 5) arrived)
consume_once-Safe_example =
    consume_once-Safe os (sec 1) (sec 2) (pos 5) arrived arrived-CanPoll
      (Loop-IsSound new-IsSound arrived-Loop) refl (omega arith)
      (omega arith, (omega arith, omega arith))

one_pending : arrived.pending_events ≡ esc_down ∷ []
unfolding start_keyboard make_manager start_drivers play_effect close_fd_if_valid open_device upload
    register_ff make_layout load_layout load_rows load_key check_key edges_of key_of consume_once
    get_next_event read_next timeout_ms narrow round flush fire_pending fire_event send_key
    send_event add_event find insert process_incoming_snapshot process_fingers process_finger arrive
    generate_event_for_arriving_finger key_at leave_all leave tap_rejection is_outside layout_at
    timespec_is_later find_value_by_event fill_snapshot fill finger_of enqueue contains
    event_triggered play_effect_of_event position_along add_ms_to_timespec carry ◌+ℤ◌ ◌-ℤ◌ set_up
    create_uinput_fd finalize_uinput_creation enable_keyboard_events enable_keys enable_key
    enable_event_type enable_key_event Evdev.open_source_device
one_pending = refl

timed_out : poll os (sec 1) (pos 5) arrived ≡ ok (none, waited)
unfolding start_keyboard make_manager start_drivers play_effect close_fd_if_valid open_device upload
    register_ff make_layout load_layout load_rows load_key check_key edges_of key_of consume_once
    get_next_event read_next timeout_ms narrow round flush fire_pending fire_event send_key
    send_event add_event find insert process_incoming_snapshot process_fingers process_finger arrive
    generate_event_for_arriving_finger key_at leave_all leave tap_rejection is_outside layout_at
    timespec_is_later find_value_by_event fill_snapshot fill finger_of enqueue contains
    event_triggered play_effect_of_event position_along add_ms_to_timespec carry ◌+ℤ◌ ◌-ℤ◌ set_up
    create_uinput_fd finalize_uinput_creation enable_keyboard_events enable_keys enable_key
    enable_event_type enable_key_event Evdev.open_source_device
timed_out = refl

timeout_is : timeout_ms (sec 1) arrived.pending_events ≡ ok (pos 51)
unfolding start_keyboard make_manager start_drivers play_effect close_fd_if_valid open_device upload
    register_ff make_layout load_layout load_rows load_key check_key edges_of key_of consume_once
    get_next_event read_next timeout_ms narrow round flush fire_pending fire_event send_key
    send_event add_event find insert process_incoming_snapshot process_fingers process_finger arrive
    generate_event_for_arriving_finger key_at leave_all leave tap_rejection is_outside layout_at
    timespec_is_later find_value_by_event fill_snapshot fill finger_of enqueue contains
    event_triggered play_effect_of_event position_along add_ms_to_timespec carry ◌+ℤ◌ ◌-ℤ◌ set_up
    create_uinput_fd finalize_uinput_creation enable_keyboard_events enable_keys enable_key
    enable_event_type enable_key_event Evdev.open_source_device
timeout_is = refl

timeout_fires_example :
    Ends os
      (λ kb'. IsSound kb' × (length kb'.pending_events < length arrived.pending_events))
      (consume_once os (sec 1) (sec 2) (pos 5) arrived)
timeout_fires_example =
    timeout_fires os (sec 1) (sec 2) (pos 5) esc_down [] arrived waited one_pending
      (Loop-IsSound new-IsSound arrived-Loop) (omega arith) (omega arith) (omega arith)
      (omega arith, omega arith) timed_out λ n e. ground (arith, e, timeout_is)

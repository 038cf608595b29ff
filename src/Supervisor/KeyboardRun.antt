-- ===== src/Supervisor/KeyboardRun.antt =====
-- A small run of the keyboard worker: the system, and the states of a keyboard on which a key is
-- typed.
use halo_keyboard.Prelude.{
  replicate, ◌++◌, ℕ, ℤ, pos, negsuc, true, List, [], ◌∷◌, none, some, int_eq, Bool, Option,
  get_elem?, count_if, ◌+◌, false,
}
use halo_keyboard.Input.{
  InputEvent, ev_abs, ev_syn, syn_report, abs_mt_position_x, abs_mt_position_y, abs_mt_pressure,
  abs_mt_tracking_id,
}
use halo_keyboard.System.{
  create_device, set_up_device, set_key, set_event_type, upload_effect, nothing, Os, Reply, Syscall,
  open_file, close_file, write_event, ioctl, select_file, read_event, Result, Filled, filled_event,
  filled_id,
}
use halo_keyboard.Floating.Whole.{whole}
use halo_keyboard.Haptics.Manager.{TouchFfManager}
use halo_keyboard.Multitouch.EventKey.{EventKey, of_event}
use halo_keyboard.Keyboard.Time.{Timespec}
use halo_keyboard.Keyboard.State.{Keyboard, FingerData, not_rejected_yet}
use halo_keyboard.Keyboard.Sessions.{new_keyboard}
use halo_keyboard.Options.{Options}
use halo_keyboard.Haptics.Manager.{finger_down}
use halo_keyboard.Keyboard.Queue.{Event, new_event}
use halo_keyboard.Keyboard.Loop.{consume_once}
use halo_keyboard.Keyboard.LayoutExamples.{esc}

abbrev axis : ℕ → ℤ → InputEvent
axis code value = record { type = ev_abs; code = code; value = value }

abbrev pub report : InputEvent
report = record { type = ev_syn; code = syn_report; value = pos 0 }

abbrev pub x_event : InputEvent
x_event = axis abs_mt_position_x (pos 1100)

abbrev pub y_event : InputEvent
y_event = axis abs_mt_position_y (pos 50)

abbrev pub pressure_event : InputEvent
pressure_event = axis abs_mt_pressure (pos 80)

abbrev pub id_event : InputEvent
id_event = axis abs_mt_tracking_id (pos 7)

-- A finger arrives on the key.
abbrev events : List InputEvent
events = x_event ∷ y_event ∷ pressure_event ∷ id_event ∷ report ∷ []

abbrev is_read : Syscall → Bool
is_read (open_file path) = false
is_read (close_file fd) = false
is_read (ioctl fd request) = false
is_read (write_event fd ev) = false
is_read (select_file nfds sec usec) = false
is_read (read_event fd) = true

abbrev is_open : Syscall → Bool
is_open (open_file path) = true
is_open (close_file fd) = false
is_open (ioctl fd request) = false
is_open (write_event fd ev) = false
is_open (select_file nfds sec usec) = false
is_open (read_event fd) = false

abbrev filled_by : Option InputEvent → Filled
filled_by none = nothing
filled_by (some ev) = filled_event ev

abbrev replied : ℤ → Filled → Reply
replied ret filled = record { ret = ret; errno = 0; filled = filled }

-- Files get the descriptors from 3 on: the two haptic drivers, the sensor and the uinput device.
-- Every request succeeds, every write is complete, the events are read one after the other, and a
-- select times out. An uploaded effect gets the number 2.
abbrev pub os : Os
os trace (open_file path) = replied (pos (3 + count_if is_open trace)) nothing
os trace (close_file fd) = replied (pos 0) nothing
os trace (ioctl fd request) = replied (pos 0) (filled_id (pos 2))
os trace (write_event fd ev) = replied (pos 24) nothing
os trace (select_file nfds sec usec) = replied (pos 0) nothing
os trace (read_event fd) = replied (pos 24) (filled_by (get_elem? events (count_if is_read trace)))

abbrev pub options : Options whole
options = record {
  debug_level = 0;
  haptic_magnitude = pos 1;
  haptic_duration_ms = pos 12;
  config_directory = "";
}

abbrev haptics : TouchFfManager
haptics = record {
  left_driver = record { fd = pos 3 };
  right_driver = record { fd = pos 4 };
  left_driver_fflib = (finger_down, pos 2) ∷ [];
  right_driver_fflib = (finger_down, pos 2) ∷ [];
  touch_max_x = pos 1920;
  touch_rotation = pos 270;
}

abbrev full_gain : InputEvent
full_gain = record { type = 21; code = 96; value = pos 65535 }

abbrev calls : List Syscall
calls =
    ioctl (pos 6) create_device
    ∷ ioctl (pos 6) (set_up_device "Halo Keyboard")
    ∷ ioctl (pos 6) (set_key 1)
    ∷ ioctl (pos 6) (set_event_type 1)
    ∷ open_file "/dev/uinput"
    ∷ open_file "/dev/halo_keyboard"
    ∷ ioctl (pos 4) (upload_effect 0 (pos 12))
    ∷ ioctl (pos 3) (upload_effect 0 (pos 12))
    ∷ write_event (pos 4) full_gain
    ∷ open_file "/dev/right_vibrator"
    ∷ write_event (pos 3) full_gain
    ∷ open_file "/dev/left_vibrator"
    ∷ []

abbrev pub new : Keyboard
new = new_keyboard haptics (esc ∷ []) (pos 6) calls

abbrev pub sec : ℕ → Timespec
sec n = record { tv_sec = n; tv_nsec = 0 }

abbrev pub step : ℕ → Keyboard → Result Keyboard
step n = consume_once os (sec n) (sec (n + 1)) (pos 5)

abbrev Values : Type 0
Values = List (EventKey × ℤ)

abbrev x_value : Values
x_value = (of_event x_event, pos 1100) ∷ []

abbrev y_value : Values
y_value = x_value ++ (of_event y_event, pos 50) ∷ []

abbrev pressure_value : Values
pressure_value = y_value ++ (of_event pressure_event, pos 80) ∷ []

abbrev id_value : Values
id_value = pressure_value ++ (of_event id_event, pos 7) ∷ []

-- The keyboard after reads that have filled the first slot.
abbrev after_reads : Values → List Syscall → Keyboard
after_reads values trace = record new {
  sm = record { current_slot = pos 0; dropping_events = false; slots = values ∷ replicate 9 [] };
  trace = trace;
}

abbrev read : Syscall
read = read_event (pos 5)

abbrev pub at_x : Keyboard
at_x = after_reads x_value (read ∷ calls)

abbrev pub at_xy : Keyboard
at_xy = after_reads y_value (read ∷ read ∷ calls)

abbrev pub with_pressure : Keyboard
with_pressure = after_reads pressure_value (read ∷ read ∷ read ∷ calls)

abbrev pub with_id : Keyboard
with_id = after_reads id_value (read ∷ read ∷ read ∷ read ∷ calls)

abbrev pub esc_down : Event
esc_down = new_event 1 true (record { tv_sec = 1; tv_nsec = 50_000_000 }) (pos 7)

abbrev finger : FingerData
finger = record {
  arrival_time = sec 1;
  max_pressure = pos 80;
  max_touch_major = negsuc 0;
  starting_key_number = pos 0;
  event_code = 1;
  down_sent = false;
  rejection_status = not_rejected_yet;
}

-- The finger is on the key: the effect is played, and the event is pending.
abbrev pub arrived : Keyboard
arrived = record with_id {
  pending_events = esc_down ∷ [];
  finger_data = (pos 7, finger) ∷ [];
  trace =
      write_event (pos 3) (record { type = 21; code = 2; value = pos 1 }) ∷ read ∷ with_id.trace;
}

abbrev pub waited : List Syscall
waited = select_file (pos 6) 0 51_000 ∷ arrived.trace

-- The select has timed out, and the key is pressed.
abbrev pub typed : Keyboard
typed = record arrived {
  pending_events = [];
  finger_data = (pos 7, record finger { down_sent = true }) ∷ [];
  trace =
      write_event (pos 6) report
      ∷ write_event (pos 6) (record { type = 1; code = 1; value = pos 1 })
      ∷ waited;
}

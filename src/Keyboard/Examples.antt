-- ===== src/Keyboard/Examples.antt =====
-- Evaluations of the keyboard modules on small inputs, and instances of their theorems.
use halo_keyboard.Prelude.{
  ℕ, ℤ, pos, negsuc, ◌+◌, ◌-◌, ◌*◌, ◌≤◌, ◌≡◌, refl, true, false, List, [], ◌∷◌, ◌++◌, none, some,
  arith, find, int_eq, count_if, one_if, is_some, All, ltb,
}
use halo_keyboard.Input.{ev_key, ev_syn, syn_report}
use halo_keyboard.System.{nothing, Os, Syscall, write_event, ok}
use halo_keyboard.Uinput.{send_event, event_of}
use halo_keyboard.Uinput.Writes.{Ends}
use halo_keyboard.Haptics.Manager.{TouchFfManager}
use halo_keyboard.Multitouch.StateMachine.{MtFinger, Snapshot, init}
use halo_keyboard.Keyboard.Key.{Key}
use halo_keyboard.Keyboard.Time.{Timespec, add_ms_to_timespec, timespec_is_later, ns_per_ms}
use halo_keyboard.Keyboard.Queue.{Event, new_event, enqueue}
use halo_keyboard.Keyboard.State.{Keyboard, FingerData, not_rejected_yet, old_tid}
use halo_keyboard.Keyboard.Fingers.{layout_at, leave, process_incoming_snapshot}
use halo_keyboard.Keyboard.Consume.{round, flush, fire_pending, fire_event, send_key, timeout_ms}
use halo_keyboard.Keyboard.Deadlines.{
  add_ms_to_timespec_lem, timespec_is_later_lem, timeout_ms_bounds, total_ns, IsNormal,
}
use halo_keyboard.Keyboard.Ordering.{NotBefore, After, enqueue_splits}
use halo_keyboard.Keyboard.Balance.{is_sent, owes_down, has_code}
use halo_keyboard.Keyboard.Soundness.{IsSound}
use halo_keyboard.Keyboard.Frames.{process_incoming_snapshot-IsSound}
use halo_keyboard.Keyboard.Rounds.{round-Ends, Rounded}
use halo_keyboard.Keyboard.Setup.{enable_keyboard_events, enable_keys, enable_key}
use halo_keyboard.Keyboard.Codes.{IsKeyEnabled, enable_keyboard_events-IsKeyEnabled}
use halo_keyboard.Uinput.Device.{enable_event_type, enable_key_event}
use halo_keyboard.Keyboard.Runs.{
  Run, start, next, quiet-IsSound, Run-IsSound, no_stuck_key, leave_unchecked,
}

-- Every write is complete.
abbrev os : Os
os trace call = record { ret = pos 24; errno = 0; filled = nothing }

abbrev key_a : Key
key_a = record {
  event_code = 30;
  event_code_fn = 0;
  xmin = pos 0;
  xmax = pos 100;
  ymin = pos 0;
  ymax = pos 100;
}

abbrev haptics : TouchFfManager
haptics = record {
  left_driver = record { fd = negsuc 0 };
  right_driver = record { fd = negsuc 0 };
  left_driver_fflib = [];
  right_driver_fflib = [];
  touch_max_x = pos 1920;
  touch_rotation = pos 0;
}

abbrev idle : Keyboard
idle = record {
  ff_manager = haptics;
  layout = key_a ∷ [];
  sm = init;
  pending_events = [];
  finger_data = [];
  fn_key_pressed = false;
  fd = pos 5;
  trace = [];
}

abbrev sec : ℕ → Timespec
sec n = record { tv_sec = n; tv_nsec = 0 }

-- The key-down of a finger that has left, and its key-up.
abbrev down : Event
down = record (new_event 30 true (sec 1) (pos 7)) { is_guaranteed = true }

abbrev up : Event
up = record (new_event 30 false (sec 2) old_tid) { is_guaranteed = true }

abbrev tapped : Keyboard
tapped = record idle { pending_events = down ∷ up ∷ [] }

abbrev sent : ℕ → ℕ → ℤ → Syscall
sent type code value = write_event (pos 5) (record { type = type; code = code; value = value })

abbrev released : Keyboard
released = record idle {
  trace = sent ev_syn syn_report (pos 0) ∷ sent ev_key 30 (pos 0) ∷ sent ev_key 30 (pos 1) ∷ [];
}

round_releases : round os (sec 10) none tapped ≡ ok released
unfolding round flush fire_pending fire_event send_key send_event timespec_is_later find
round_releases = refl

idle-IsSound : IsSound idle
idle-IsSound = quiet-IsSound idle refl refl λ c. refl

tapped-IsSound : IsSound tapped
unfolding find timespec_is_later
tapped-IsSound = record {
  tracking = record {
    distinct = tt;
    no_old = refl;
    events = (refl, (refl, tt));
    fingers = λ t fd e. ground arith;
  };
  sorted = ((refl, tt), (tt, tt));
  balanced = λ c. ground arith;
}

tap-Run : Run os tapped released
tap-Run = next start (sec 10) none tt round_releases

Run-IsSound_example : IsSound released
Run-IsSound_example = Run-IsSound tapped-IsSound tap-Run

no_stuck_key_example :
    count_if (is_sent 30 (pos 1)) released.trace ≡ count_if (is_sent 30 (pos 0)) released.trace
no_stuck_key_example = no_stuck_key 30 tapped-IsSound tap-Run refl refl

round-Ends_example : Ends os (Rounded (sec 10) none tapped) (round os (sec 10) none tapped)
round-Ends_example = round-Ends os (sec 10) none tapped tt tapped-IsSound

abbrev finger : MtFinger
finger = record { x = pos 50; y = pos 50; p = pos 80; touch_major = pos 500 }

abbrev touch : Snapshot
touch = (pos 7, finger) ∷ []

process_incoming_snapshot-IsSound_example :
    (kb' : Keyboard) × (process_incoming_snapshot os (sec 10) touch idle ≡ ok kb')
    × IsSound kb'
    × ((s : ℤ) → is_some (find s kb'.finger_data) ≡ is_some (find s touch))
unfolding find
process_incoming_snapshot-IsSound_example =
    process_incoming_snapshot-IsSound os (sec 10) touch idle (refl, tt) ((refl, λ e. refl), tt)
      idle-IsSound

abbrev fresh : FingerData
fresh = record {
  arrival_time = sec 1;
  max_pressure = pos 5;
  max_touch_major = pos 5;
  starting_key_number = pos 0;
  event_code = 30;
  down_sent = false;
  rejection_status = not_rejected_yet;
}

-- A finger of pressure 5, below the 50 that a tap needs, with its key-down pending.
abbrev weak : Keyboard
weak = record idle {
  pending_events = new_event 30 true (sec 1) (pos 7) ∷ [];
  finger_data = (pos 7, fresh) ∷ [];
}

weak-fingers :
    (t : ℤ) (fd : FingerData) → find t weak.finger_data ≡ some fd → (t ≡ pos 7) × (fd ≡ fresh)
unfolding find
weak-fingers t fd e = ground arith

weak-IsSound : IsSound weak
unfolding find layout_at
weak-IsSound = record {
  tracking = record {
    distinct = (refl, tt);
    no_old = refl;
    events = (refl, tt);
    fingers = λ t fd e. let (p, q) = weak-fingers t fd e in rw (p, q) (refl, λ r. refl);
  };
  sorted = (tt, tt);
  balanced = λ c. ground arith;
}

abbrev weak_down : Event
weak_down = new_event 30 true (sec 1) (pos 7)

leave_unchecked_example :
    (count_if (owes_down 30) (leave (sec 1) [] (pos 7) fresh weak).pending_events
      ≡ count_if (owes_down 30) weak.pending_events + one_if (has_code 30 fresh.event_code))
    × Ends os
        (λ r.
          (r.1 ≡ true)
          × (r.0.trace ≡ write_event weak.fd (event_of ev_key 30 (pos 1)) ∷ weak.trace))
        (fire_event os weak_down
          (record (leave (sec 1) [] (pos 7) fresh weak) { pending_events = [] })
          false)
unfolding find
leave_unchecked_example =
    leave_unchecked os (sec 1) [] (pos 7) fresh weak 30 weak_down [] false weak-IsSound refl refl
      refl refl

enqueue_splits_example :
    (before : List Event) × (later : List Event) × (down ∷ up ∷ [] ≡ before ++ later)
    × (enqueue down (down ∷ up ∷ []) ≡ before ++ down ∷ later)
    × All (λ e. NotBefore e down) before
    × All (After down) later
enqueue_splits_example = enqueue_splits down (down ∷ up ∷ []) tapped-IsSound.sorted

add_ms_to_timespec_example :
    (total_ns (add_ms_to_timespec (sec 3) 1500) ≡ total_ns (sec 3) + 1500 * ns_per_ms)
    × IsNormal (add_ms_to_timespec (sec 3) 1500)
add_ms_to_timespec_example = add_ms_to_timespec_lem (sec 3) 1500

timespec_is_later_example :
    timespec_is_later (sec 3) (sec 2) ≡ ltb (total_ns (sec 2)) (total_ns (sec 3))
timespec_is_later_example = timespec_is_later_lem (sec 3) (sec 2) (omega arith) (omega arith)

timeout_ms_bounds_example :
    (n : ℕ) × (timeout_ms (sec 1) (up ∷ []) ≡ ok (pos n))
    × (total_ns up.deadline ≤ total_ns (sec 1) + n * ns_per_ms)
    × (n * ns_per_ms ≤ (total_ns up.deadline - total_ns (sec 1)) + 2 * ns_per_ms)
timeout_ms_bounds_example =
    timeout_ms_bounds (sec 1) up [] (omega arith) (omega arith) (omega arith, omega arith)

-- Every request succeeds.
abbrev granting : Os
granting trace call = record { ret = pos 0; errno = 0; filled = nothing }

keys_enabled : (enable_keyboard_events granting (pos 5) (key_a ∷ []) []).1 ≡ true
unfolding enable_keyboard_events enable_event_type enable_keys enable_key enable_key_event
keys_enabled = refl

enable_keyboard_events_example :
    All
      (IsKeyEnabled granting (pos 5) (enable_keyboard_events granting (pos 5) (key_a ∷ []) []).0)
      (key_a ∷ [])
enable_keyboard_events_example =
    enable_keyboard_events-IsKeyEnabled granting (pos 5) (key_a ∷ []) [] keys_enabled

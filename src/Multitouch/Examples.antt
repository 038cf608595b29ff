-- ===== src/Multitouch/Examples.antt =====
-- Evaluations of the multitouch modules on small inputs, and instances of their theorems.
use halo_keyboard.Prelude.{
  ℕ, ℤ, pos, negsuc, ◌≡◌, refl, true, List, [], ◌∷◌, ◌++◌, none, some, arith, find, insert, int_eq,
}
use halo_keyboard.Input.{
  InputEvent, ev_syn, ev_abs, syn_report, syn_dropped, abs_mt_slot, abs_mt_position_x,
  abs_mt_position_y, abs_mt_tracking_id,
}
use halo_keyboard.Multitouch.Slot.{find_value_by_event}
use halo_keyboard.Multitouch.StateMachine.{
  MtStateMachine, init, add_event, add_events, fill_snapshot, finger_of,
}
use halo_keyboard.Multitouch.Validity.{IsValid, init-IsValid, add_event-IsValid}
use halo_keyboard.Multitouch.Frames.{
  after, slot_value, slot_value-after, written, cursor, out_of_step, add_events_resync,
  add_event_complete,
}
use halo_keyboard.Multitouch.Snapshots.{owner, find-fill_snapshot}

abbrev event : ℕ → ℕ → ℤ → InputEvent
event type code value = record { type = type; code = code; value = value }

abbrev report : InputEvent
report = event ev_syn syn_report (pos 0)

abbrev drop : InputEvent
drop = event ev_syn syn_dropped (pos 0)

abbrev add_finger : ℕ → ℕ → ℕ → ℕ → List InputEvent
add_finger slot tid x y =
    event ev_abs abs_mt_slot (pos slot)
    ∷ event ev_abs abs_mt_tracking_id (pos tid)
    ∷ event ev_abs abs_mt_position_x (pos x)
    ∷ event ev_abs abs_mt_position_y (pos y)
    ∷ []

touched : MtStateMachine
touched = add_events init (add_finger 2 42 120 340)

-- The first frame of tests/state_machine_test.cc.
normal_frame :
    find (pos 42) (fill_snapshot touched)
    ≡ some (record { x = pos 120; y = pos 340; p = negsuc 0; touch_major = negsuc 0 })
unfolding touched add_events fill_snapshot finger_of find_value_by_event find insert
normal_frame = refl

-- Slots -1 and 10 do not exist, so what is written after their selection is lost.
invalid_slots :
    find (pos 42) (
      fill_snapshot (
        add_events touched (
          event ev_abs abs_mt_slot (negsuc 0)
          ∷ event ev_abs abs_mt_position_x (pos 999)
          ∷ event ev_abs abs_mt_slot (pos 10)
          ∷ event ev_abs abs_mt_position_y (pos 999)
          ∷ [])))
    ≡ some (record { x = pos 120; y = pos 340; p = negsuc 0; touch_major = negsuc 0 })
unfolding touched add_events fill_snapshot finger_of find_value_by_event find insert
invalid_slots = refl

add_event-IsValid_example : IsValid (add_event init drop none).machine
add_event-IsValid_example = add_event-IsValid init drop none init-IsValid

slot_value-after_example :
    slot_value
      (after (event ev_abs abs_mt_position_x (pos 7) ∷ []))
      0
      (record { type = ev_abs; code = abs_mt_position_x })
    ≡ some (pos 7)
unfolding written cursor out_of_step
slot_value-after_example =
    slot_value-after (event ev_abs abs_mt_position_x (pos 7) ∷ []) 0
      (record { type = ev_abs; code = abs_mt_position_x }) (omega arith)

add_events_resync_example : add_events init (drop ∷ add_finger 0 77 1 2 ++ report ∷ []) ≡ init
add_events_resync_example =
    add_events_resync init drop report (add_finger 0 77 1 2) init-IsValid refl refl
      (refl, (refl, (refl, (refl, tt))))

add_event_complete_example : (add_event init report (some [])).complete ≡ true
add_event_complete_example = (add_event_complete init report (some [])).0

find-fill_snapshot_example :
    find (pos 42) (fill_snapshot touched)
    ≡ some (record { x = pos 120; y = pos 340; p = negsuc 0; touch_major = negsuc 0 })
unfolding touched add_events owner find insert
find-fill_snapshot_example = find-fill_snapshot (pos 42) touched

-- ===== src/Touchpad/Examples.antt =====
-- Evaluations of the touchpad modules on small inputs, and instances of their theorems.
use halo_keyboard.Prelude.{
  ℤ, pos, ◌≤ℤ◌, ◌≡◌, refl, true, false, List, [], ◌∷◌, find, replicate, All-replicate, arith, ◌-ℤ◌,
  int_eq,
}
use halo_keyboard.Input.{
  InputEvent, ev_syn, syn_report, abs_mt_position_x, abs_mt_position_y, abs_mt_tracking_id,
  btn_touch, btn_tool_finger, btn_tool_doubletap,
}
use halo_keyboard.System.{nothing, Os, Result, ok, err}
use halo_keyboard.Uinput.{send_event}
use halo_keyboard.Uinput.Writes.{Ends}
use halo_keyboard.Multitouch.EventKey.{event_key_eq}
use halo_keyboard.Multitouch.Slot.{Slot, find_value_by_event}
use halo_keyboard.Multitouch.StateMachine.{init, add_event}
use halo_keyboard.Multitouch.Validity.{IsSlotValid}
use halo_keyboard.Touchpad.Region.{Region, Touchpad, contains, to_region, declared_size}
use halo_keyboard.Touchpad.Sync.{
  round, sync_touch_events, sync_slots, sync_slot, send_value, pass_events_through,
  send_touchpad_btn_events,
}
use halo_keyboard.Touchpad.Kernel.{reported, pressed}
use halo_keyboard.Touchpad.Passing.{shown, shown_bounds, axis}
use halo_keyboard.Touchpad.Syncing.{IsMatched, IsSync, sync_touch_events-Ends}
use halo_keyboard.Touchpad.Buttons.{IsSteady, IsInFrame, round_mirrors}
use halo_keyboard.Touchpad.Drawing.{round_draws_in_range}

-- Every write is complete.
abbrev os : Os
os trace call = record { ret = pos 24; errno = 0; filled = nothing }

abbrev region : Region
region = record {
  rotation = pos 90;
  xmin = pos 100;
  xmax = pos 500;
  ymin = pos 200;
  ymax = pos 400;
}

abbrev contact : Slot
contact =
    (axis abs_mt_tracking_id, pos 7)
    ∷ (axis abs_mt_position_x, pos 120)
    ∷ (axis abs_mt_position_y, pos 210)
    ∷ []

abbrev untouched : Touchpad
untouched = record {
  region = region;
  sm = init;
  slot_memberships = replicate 10 false;
  fd = pos 5;
  trace = [];
}

abbrev touched : Touchpad
touched = record untouched { sm = record init { slots = contact ∷ replicate 9 [] } }

abbrev report : InputEvent
report = record { type = ev_syn; code = syn_report; value = pos 0 }

abbrev what_is_shown : Result Touchpad → List ℤ
what_is_shown (ok tp) =
    reported abs_mt_tracking_id (pos 0) tp.trace
    ∷ reported abs_mt_position_x (pos 0) tp.trace
    ∷ reported abs_mt_position_y (pos 0) tp.trace
    ∷ pressed btn_touch tp.trace
    ∷ pressed btn_tool_finger tp.trace
    ∷ pressed btn_tool_doubletap tp.trace
    ∷ []
what_is_shown (err e) = []

-- On a sensor turned by 90 degrees the contact at (120, 210) is shown at (400 - 210, 120 - 100).
frame_shown :
    what_is_shown (round os report touched) ≡ pos 7 ∷ pos 190 ∷ pos 20 ∷ pos 1 ∷ pos 1 ∷ pos 0 ∷ []
unfolding round add_event sync_touch_events sync_slots sync_slot send_value pass_events_through
    send_touchpad_btn_events send_event contains to_region find_value_by_event find ◌-ℤ◌
frame_shown = refl

abbrev empty-IsSlotValid : IsSlotValid []
empty-IsSlotValid = (tt, tt)

contact-IsSlotValid : IsSlotValid contact
unfolding find
contact-IsSlotValid = (
  (refl, (refl, (refl, tt))),
  ((refl, λ e. omega arith), ((refl, λ e. omega arith), ((refl, λ e. omega arith), tt))),
)

touched-IsSteady : IsSteady touched
touched-IsSteady = record {
  machine = record {
    size = refl;
    above = omega arith;
    below = omega arith;
    contents = (contact-IsSlotValid, All-replicate IsSlotValid 9 [] empty-IsSlotValid);
  };
  size = refl;
  mirror = λ i e. refl;
}

touched-IsMatched : IsMatched touched
touched-IsMatched = record {
  slots = (contact-IsSlotValid.0, (tt, (tt, (tt, (tt, (tt, (tt, (tt, (tt, (tt, tt))))))))));
  size = refl;
  mirror = λ i e. refl;
}

round_mirrors_example :
    Ends os (λ tp'. IsSteady tp' × (true ≡ true → IsInFrame touched tp')) (round os report touched)
round_mirrors_example = round_mirrors os report touched touched-IsSteady

sync_touch_events_example : Ends os (IsSync touched) (sync_touch_events os touched)
sync_touch_events_example = sync_touch_events-Ends os touched touched-IsMatched

shown_bounds_example :
    (pos 0 ≤ℤ shown region contact abs_mt_position_x)
    × (shown region contact abs_mt_position_x ≤ℤ (declared_size region).0)
    × (pos 0 ≤ℤ shown region contact abs_mt_position_y)
    × (shown region contact abs_mt_position_y ≤ℤ (declared_size region).1)
unfolding contains find_value_by_event find
shown_bounds_example = shown_bounds region contact refl refl

round_draws_in_range_example :
    Ends os
      (λ tp'.
        (pos 0 ≤ℤ reported abs_mt_position_x (pos 0) tp'.trace)
        × (reported abs_mt_position_x (pos 0) tp'.trace ≤ℤ (declared_size region).0)
        × (pos 0 ≤ℤ reported abs_mt_position_y (pos 0) tp'.trace)
        × (reported abs_mt_position_y (pos 0) tp'.trace ≤ℤ (declared_size region).1))
      (round os report touched)
unfolding find contains find_value_by_event
round_draws_in_range_example =
    round_draws_in_range os report touched 0 contact (pos 120) (pos 210) touched-IsMatched refl refl
      refl refl refl refl

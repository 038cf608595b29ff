-- ===== src/Multitouch/StateMachine.antt =====
-- multitouch/state_machine.h and state_machine.cc.
use halo_keyboard.Prelude.{
  ℕ, ℤ, pos, negsuc, Bool, true, false, ◌&&◌, Option, none, some, List, [], ◌∷◌, Map, insert, ◌==◌,
  ◌==ℤ◌, leb_ℤ, ltb_ℤ, if◌then◌else◌, get_elem?, modify, replicate, map, pos_part, int_eq,
}
use halo_keyboard.Input.{
  InputEvent, ev_syn, ev_abs, syn_report, syn_dropped, abs_mt_touch_major, abs_mt_position_x,
  abs_mt_position_y, abs_mt_tracking_id, abs_mt_pressure,
}
use halo_keyboard.Multitouch.EventKey.{EventKey, of_event, is_slot, is_syn, event_key_eq}
use halo_keyboard.Multitouch.Slot.{Slot, find_value_by_event}

abbrev pub num_slots : ℕ
num_slots = 10

pub record MtFinger : Type 0 where
  pub x : ℤ
  pub y : ℤ
  pub p : ℤ
  pub touch_major : ℤ

-- From tracking ids to fingers.
abbrev pub Snapshot : Type 0
Snapshot = Map ℤ MtFinger

pub record MtStateMachine : Type 0 where
  pub current_slot : ℤ
  pub dropping_events : Bool
  pub slots : List Slot

abbrev pub init : MtStateMachine
init = record { current_slot = pos 0; dropping_events = false; slots = replicate num_slots [] }

unfoldable pub reset : MtStateMachine → MtStateMachine
reset sm = record { current_slot = pos 0; dropping_events = false; slots = map (λ _. []) sm.slots }

unfoldable pub finger_of : Slot → MtFinger
finger_of slot = record {
  x = find_value_by_event slot ev_abs abs_mt_position_x;
  y = find_value_by_event slot ev_abs abs_mt_position_y;
  p = find_value_by_event slot ev_abs abs_mt_pressure;
  touch_major = find_value_by_event slot ev_abs abs_mt_touch_major;
}

abbrev pub tid_of : Slot → ℤ
tid_of slot = find_value_by_event slot ev_abs abs_mt_tracking_id

-- The loop of FillSnapshot over the slots that are left.
unfoldable pub fill : List Slot → Snapshot → Snapshot
fill [] out = out
fill (slot ∷ slots) out =
    fill slots (if tid_of slot ==ℤ negsuc 0 then out else insert (tid_of slot) (finger_of slot) out)

unfoldable pub fill_snapshot : MtStateMachine → Snapshot
unfolding fill
fill_snapshot sm = fill sm.slots []

-- The machine after the event, `*out_snapshot` after it (`none` is the null pointer), and the
-- returned flag.
pub record Added : Type 0 where
  pub machine : MtStateMachine
  pub out_snapshot : Option Snapshot
  pub complete : Bool

abbrev selected_slot : ℤ → ℤ
selected_slot v = if leb_ℤ (pos 0) v && ltb_ℤ v (pos num_slots) then v else negsuc 0

abbrev write_current : MtStateMachine → EventKey → ℤ → MtStateMachine
write_current sm key v = record sm {
  slots = modify sm.slots (pos_part sm.current_slot) (insert key v);
}

abbrev filled : MtStateMachine → Option Snapshot → Option Snapshot
filled sm none = none
filled sm (some _) = some (fill_snapshot sm)

unfoldable pub add_event : MtStateMachine → InputEvent → Option Snapshot → Added
unfolding reset
add_event sm ev out =
    if ev.type == ev_syn && ev.code == syn_dropped
    then record {
      machine = record (reset sm) { dropping_events = true };
      out_snapshot = out;
      complete = false;
    }
    else if sm.dropping_events
    then record {
      machine =
          if ev.type == ev_syn && ev.code == syn_report
          then record sm { dropping_events = false }
          else sm;
      out_snapshot = out;
      complete = false;
    }
    else if is_slot (of_event ev)
    then record {
      machine = record sm { current_slot = selected_slot ev.value };
      out_snapshot = out;
      complete = false;
    }
    else if is_syn (of_event ev)
    then record { machine = sm; out_snapshot = filled sm out; complete = true }
    else if ev.type == ev_abs && leb_ℤ (pos 0) sm.current_slot
    then record {
      machine = write_current sm (of_event ev) ev.value;
      out_snapshot = out;
      complete = false;
    }
    else record { machine = sm; out_snapshot = out; complete = false }

-- `none` is std::out_of_range.
unfoldable pub slot : MtStateMachine → ℕ → Option Slot
slot sm index = get_elem? sm.slots index

-- The machine after a sequence of events.
unfoldable pub add_events : MtStateMachine → List InputEvent → MtStateMachine
unfolding add_event
add_events sm [] = sm
add_events sm (ev ∷ evs) = add_events (add_event sm ev none).machine evs

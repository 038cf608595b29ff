-- ===== src/Multitouch/EventKey.antt =====
-- multitouch/event_key.h and event_key.cc. `type_` and `code_` are ints that hold the unsigned
-- fields of an event, so they are natural numbers here.
use halo_keyboard.Prelude.{
  ℕ, ◌≡◌, ◌↔◌, Bool, false, true, not, ◌&&◌, ◌||◌, arith, Eq, ◌==◌, if◌then◌else◌,
}
use halo_keyboard.Input.{
  InputEvent, ev_syn, ev_abs, syn_report, abs_mt_slot, abs_mt_touch_major, abs_mt_touch_minor,
  abs_mt_position_x, abs_mt_position_y, abs_mt_tracking_id, abs_mt_pressure,
}

pub record EventKey : Type 0 where
  pub type : ℕ
  pub code : ℕ

-- The constructor from an event.
abbrev pub of_event : InputEvent → EventKey
of_event ev = record { type = ev.type; code = ev.code }

-- operator==
abbrev pub equals : EventKey → EventKey → Bool
equals a b = a.type == b.type && a.code == b.code

abbrev pub is_syn : EventKey → Bool
is_syn k = k.type == ev_syn && k.code == syn_report

abbrev pub is_slot : EventKey → Bool
is_slot k = k.type == ev_abs && k.code == abs_mt_slot

abbrev pub is_tracking_id : EventKey → Bool
is_tracking_id k = k.type == ev_abs && k.code == abs_mt_tracking_id

abbrev pub is_x : EventKey → Bool
is_x k = k.type == ev_abs && k.code == abs_mt_position_x

abbrev pub is_y : EventKey → Bool
is_y k = k.type == ev_abs && k.code == abs_mt_position_y

abbrev pub is_supported_for_touchpads : EventKey → Bool
is_supported_for_touchpads k =
    if not (k.type == ev_abs)
    then false
    else k.code == abs_mt_tracking_id
      || k.code == abs_mt_pressure
      || k.code == abs_mt_position_x
      || k.code == abs_mt_position_y
      || k.code == abs_mt_touch_major
      || k.code == abs_mt_touch_minor

pub equals_iff : (a b : EventKey) → (equals a b ≡ true) ↔ (a ≡ b)
equals_iff a b = ground arith

instance abbrev pub event_key_eq : Eq EventKey
event_key_eq = record { beq = equals; beq_iff = equals_iff }

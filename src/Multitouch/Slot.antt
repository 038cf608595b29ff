-- ===== src/Multitouch/Slot.antt =====
-- multitouch/slot.h and slot.cc.
use halo_keyboard.Prelude.{ℕ, ℤ, negsuc, Option, none, some, Map, find}
use halo_keyboard.Multitouch.EventKey.{EventKey, event_key_eq}

abbrev pub slot_missing_value : ℤ
slot_missing_value = negsuc 0

-- A map from event keys to values.
abbrev pub Slot : Type 0
Slot = Map EventKey ℤ

abbrev value_or_missing : Option ℤ → ℤ
value_or_missing none = slot_missing_value
value_or_missing (some v) = v

unfoldable pub find_value_by_event : Slot → ℕ → ℕ → ℤ
find_value_by_event slot ev_type ev_code =
    value_or_missing (find (record { type = ev_type; code = ev_code }) slot)

-- ===== src/Touchpad/Loop.antt =====
-- The body of the loop of FakeTouchpad::Consume, with the poll of the sensor, and the states that
-- the loop reaches.
use halo_keyboard.Prelude.{ℤ, ◌≡◌, none, some, List, [], ◌∷◌, find, Distinct}
use halo_keyboard.System.{Os, Result, ok, ◌>>=◌}
use halo_keyboard.Evdev.{get_next_event, no_timeout}
use halo_keyboard.Touchpad.Region.{Touchpad}
use halo_keyboard.Touchpad.Sync.{round}
use halo_keyboard.Multitouch.EventKey.{EventKey, event_key_eq}
use halo_keyboard.Multitouch.Slot.{Slot}

unfoldable pub consume_once : Os → ℤ → Touchpad → Result Touchpad
consume_once os source_fd tp = do
  polled ← get_next_event os source_fd no_timeout tp.trace
  let tp' : Touchpad = record tp { trace = polled.1 }
  elim polled.0 [ none ↦ ok tp' | some ev ↦ round os ev tp' ]

-- The same entries of a slot in another order: std::unordered_map may iterate in any.
abbrev pub IsReordered : Slot → Slot → Type 0
IsReordered s s' = Distinct s' × ((k : EventKey) → find k s' ≡ find k s)

abbrev pub AreReordered : List Slot → List Slot → Type 0
AreReordered [] [] = Unit
AreReordered [] (s' ∷ ss') = ⊥
AreReordered (s ∷ ss) [] = ⊥
AreReordered (s ∷ ss) (s' ∷ ss') = IsReordered s s' × AreReordered ss ss'

abbrev pub with_slots : Touchpad → List Slot → Touchpad
with_slots tp slots = record tp { sm = record tp.sm { slots = slots } }

-- The states that rounds reach, where the maps of the slots may change their order of iteration
-- between the rounds.
pub data Loop (os : Os) (source_fd : ℤ) (tp : Touchpad) : Touchpad → Type 0 where
  enter : Loop os source_fd tp tp
  again :
      {t t' : Touchpad}
      → Loop os source_fd tp t
      → consume_once os source_fd t ≡ ok t'
      → Loop os source_fd tp t'
  reordered :
      {t : Touchpad}
      → Loop os source_fd tp t
      → (slots : List Slot) → AreReordered t.sm.slots slots
      → Loop os source_fd tp (with_slots t slots)

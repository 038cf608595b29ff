-- ===== src/Multitouch/Validity.antt =====
-- The state that MtStateMachine keeps: kNumSlots slots, a cursor that is a slot or -1, and slots
-- that hold absolute axes only, each at most once.
use halo_keyboard.Prelude.{
  ℤ, pos, negsuc, ◌≤ℤ◌, ◌<ℤ◌, ◌≡◌, refl, ◌≢◌, List, [], ◌∷◌, Option, none, map, arith, All,
  All-modify, All-replicate, length, length-modify, modify, Distinct, insert, insert-Distinct,
  pos_part,
}
use halo_keyboard.Input.{InputEvent, ev_abs, abs_mt_slot}
use halo_keyboard.Multitouch.EventKey.{EventKey, event_key_eq, of_event}
use halo_keyboard.Multitouch.Slot.{Slot}
use halo_keyboard.Multitouch.StateMachine.{
  MtStateMachine, Snapshot, init, add_event, add_events, num_slots,
}

abbrev pub IsAxis : EventKey × ℤ → Type 0
IsAxis e = (e.0.type ≡ ev_abs) × (e.0.code ≢ abs_mt_slot)

abbrev pub IsSlotValid : Slot → Type 0
IsSlotValid s = Distinct s × All IsAxis s

pub record IsValid (sm : MtStateMachine) : Type 0 where
  pub size : length sm.slots ≡ num_slots
  pub above : negsuc 0 ≤ℤ sm.current_slot
  pub below : sm.current_slot <ℤ pos num_slots
  pub contents : All IsSlotValid sm.slots

insert-IsAxis :
    (k : EventKey) (v : ℤ) (s : Slot) → IsAxis (k, v) → All IsAxis s → All IsAxis (insert k v s)
unfolding insert
insert-IsAxis k v [] h a = (h, tt)
insert-IsAxis k v ((j, w) ∷ s) h a = ground (arith, insert-IsAxis k v s h a.1)

insert-IsSlotValid :
    (k : EventKey) (v : ℤ) → IsAxis (k, v) → (s : Slot) → IsSlotValid s → IsSlotValid (insert k v s)
insert-IsSlotValid k v h s a = (insert-Distinct k v s a.0, insert-IsAxis k v s h a.1)

length-cleared : (ss : List Slot) → length (map {B = Slot} (λ _. []) ss) ≡ length ss
length-cleared [] = refl
length-cleared (s ∷ ss) = omega (arith, length-cleared ss)

cleared-IsSlotValid : (ss : List Slot) → All IsSlotValid (map {B = Slot} (λ _. []) ss)
cleared-IsSlotValid [] = tt
cleared-IsSlotValid (s ∷ ss) = ((tt, tt), cleared-IsSlotValid ss)

write-IsSlotValid :
    (sm : MtStateMachine) (ev : InputEvent)
    → IsAxis (of_event ev, ev.value)
    → All IsSlotValid sm.slots
    → length (modify sm.slots (pos_part sm.current_slot) (insert (of_event ev) ev.value))
        ≡ length sm.slots
      × All IsSlotValid (modify sm.slots (pos_part sm.current_slot) (insert (of_event ev) ev.value))
write-IsSlotValid sm ev h a = (
  length-modify sm.slots _ _,
  All-modify IsSlotValid sm.slots _ _ (insert-IsSlotValid (of_event ev) ev.value h) a,
)

pub init-IsValid : IsValid init
init-IsValid = record {
  size = refl;
  above = omega arith;
  below = omega arith;
  contents = All-replicate IsSlotValid num_slots [] (tt, tt);
}

-- Every event, valid or not, keeps the machine well formed.
pub add_event-IsValid :
    (sm : MtStateMachine) (ev : InputEvent) (out : Option Snapshot)
    → IsValid sm
    → IsValid (add_event sm ev out).machine
unfolding add_event
add_event-IsValid sm ev out v =
    ground (arith, length-cleared sm.slots, cleared-IsSlotValid sm.slots, write-IsSlotValid sm ev)

pub add_events-IsValid :
    (sm : MtStateMachine) (evs : List InputEvent) → IsValid sm → IsValid (add_events sm evs)
unfolding add_events
add_events-IsValid sm [] v = v
add_events-IsValid sm (ev ∷ evs) v =
    add_events-IsValid (add_event sm ev none).machine evs (add_event-IsValid sm ev none v)

-- ===== src/Multitouch/Snapshots.antt =====
-- FillSnapshot: which fingers a snapshot holds.
use halo_keyboard.Prelude.{
  ℤ, negsuc, ◌≡◌, List, [], ◌∷◌, Option, none, some, arith, find, insert, find-insert, Distinct,
  insert-Distinct, ◌==ℤ◌, ==ℤ_iff, if◌then◌else◌, int_eq, ℕ, refl,
}
use halo_keyboard.Multitouch.EventKey.{event_key_eq}
use halo_keyboard.Input.{
  ev_abs, abs_mt_tracking_id, abs_mt_position_x, abs_mt_position_y, abs_mt_pressure,
  abs_mt_touch_major,
}
use halo_keyboard.Multitouch.Slot.{Slot, find_value_by_event}
use halo_keyboard.Multitouch.StateMachine.{
  MtStateMachine, MtFinger, Snapshot, tid_of, finger_of, fill, fill_snapshot,
}

-- The value that a slot has on an axis, -1 if it has none.
abbrev pub value_on : ℕ → Slot → ℤ
value_on code slot = elim (find (record { type = ev_abs; code = code }) slot) [
  | none ↦ negsuc 0
  | some v ↦ v
]

-- The last slot whose tracking id is `t`, as a finger.
unfoldable pub owner : ℤ → List Slot → Option MtFinger
owner t [] = none
owner t (s ∷ ss) = elim (owner t ss) [
  | none ↦
      if value_on abs_mt_tracking_id s ==ℤ t
      then some (record {
        x = value_on abs_mt_position_x s;
        y = value_on abs_mt_position_y s;
        p = value_on abs_mt_pressure s;
        touch_major = value_on abs_mt_touch_major s;
      })
      else none
  | some f ↦ some f
]

find_value_by_event-value_on :
    (code : ℕ) (s : Slot) → find_value_by_event s ev_abs code ≡ value_on code s
unfolding find_value_by_event
find_value_by_event-value_on code s = ground arith

finger_of-value_on :
    (s : Slot)
    → finger_of s ≡ record {
      x = value_on abs_mt_position_x s;
      y = value_on abs_mt_position_y s;
      p = value_on abs_mt_pressure s;
      touch_major = value_on abs_mt_touch_major s;
    }
unfolding finger_of
finger_of-value_on s =
    rw
      (
        find_value_by_event-value_on abs_mt_position_x s,
        find_value_by_event-value_on abs_mt_position_y s,
        find_value_by_event-value_on abs_mt_pressure s,
        find_value_by_event-value_on abs_mt_touch_major s,
      )
      refl

abbrev or_else {ℓ} : {A : Type ℓ} → Option A → Option A → Option A
or_else none b = b
or_else (some a) b = some a

find-fill :
    (t : ℤ) (ss : List Slot) (out : Snapshot)
    → find t (fill ss out) ≡ or_else (if t ==ℤ negsuc 0 then none else owner t ss) (find t out)
unfolding fill owner
find-fill t [] out = ground arith
find-fill t (s ∷ ss) out = ground (
  arith,
  find-fill t ss (if tid_of s ==ℤ negsuc 0 then out else insert (tid_of s) (finger_of s) out),
  find-insert (tid_of s) t (finger_of s) out,
  find_value_by_event-value_on abs_mt_tracking_id s,
  finger_of-value_on s,
  ==ℤ_iff (tid_of s) t,
  ==ℤ_iff (tid_of s) (negsuc 0),
  ==ℤ_iff t (negsuc 0),
)

-- A snapshot has a finger under each tracking id but -1 that a slot holds, with the position, the
-- pressure and the diameter of the last such slot, -1 for each that it has no value of; and nothing
-- else.
pub find-fill_snapshot :
    (t : ℤ) (sm : MtStateMachine)
    → find t (fill_snapshot sm) ≡ (if t ==ℤ negsuc 0 then none else owner t sm.slots)
unfolding fill_snapshot find
find-fill_snapshot t sm = ground (arith, find-fill t sm.slots [])

fill-Distinct : (ss : List Slot) (out : Snapshot) → Distinct out → Distinct (fill ss out)
unfolding fill
fill-Distinct [] out d = d
fill-Distinct (s ∷ ss) out d =
    fill-Distinct ss _ (ground (arith, insert-Distinct (tid_of s) (finger_of s) out d))

pub fill_snapshot-Distinct : (sm : MtStateMachine) → Distinct (fill_snapshot sm)
unfolding fill_snapshot
fill_snapshot-Distinct sm = fill-Distinct sm.slots [] tt

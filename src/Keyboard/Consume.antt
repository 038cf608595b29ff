-- ===== src/Keyboard/Consume.antt =====
-- FakeKeyboard::Consume: one round of its loop, and a run of rounds.
use halo_keyboard.Prelude.{
  ℕ, zero, suc, ℤ, pos, negsuc, scale_ℤ, Bool, true, false, not, ◌&&◌, List, [], ◌∷◌, Option, none,
  some, find, insert, length, ltb_ℤ, ◌==◌, ◌==ℤ◌, sub_ℕ, div_ℤ, ◌+ℤ◌, if◌then◌else◌, int_eq, ltb,
  ◌-◌, ◌%◌, ◌^◌,
}
use halo_keyboard.Input.{InputEvent, ev_syn, ev_key, syn_report, key_space}
use halo_keyboard.System.{Os, Result, ok, err, undefined, ◌>>=◌}
use halo_keyboard.Uinput.{send_event}
use halo_keyboard.Multitouch.StateMachine.{Snapshot, add_event}
use halo_keyboard.Keyboard.Key.{Key}
use halo_keyboard.Keyboard.Time.{Timespec, timespec_is_later}
use halo_keyboard.Keyboard.Queue.{Event}
use halo_keyboard.Keyboard.State.{Keyboard, FingerData, RejectionStatus, pressure, touch_diameter}
use halo_keyboard.Keyboard.Fingers.{layout_at, reject_finger, process_incoming_snapshot}

abbrev pub min_tap_pressure : ℤ
min_tap_pressure = pos 50

abbrev pub max_tap_pressure : ℤ
max_tap_pressure = pos 110

abbrev pub min_tap_touch_diameter : ℤ
min_tap_touch_diameter = pos 300

abbrev pub max_tap_touch_diameter : ℤ
max_tap_touch_diameter = pos 3000

-- `v < low || (layout_[number].event_code_ != KEY_SPACE && v > high)`; the layout is read only if
-- the first test fails, and with no check of the bounds.
unfoldable pub is_outside : ℤ → ℤ → ℤ → List Key → ℤ → Result Bool
is_outside low high v layout number =
    if ltb_ℤ v low then ok true else elim (layout_at layout number) [
      | none ↦ err undefined
      | some key ↦ ok (not (key.event_code == key_space) && ltb_ℤ high v)
    ]

-- Why the tap of a finger is rejected, if it is.
unfoldable pub tap_rejection : List Key → FingerData → Result (Option RejectionStatus)
tap_rejection layout fd =
    if not (fd.max_pressure ==ℤ negsuc 0)
    then (do
      outside ←
          is_outside min_tap_pressure max_tap_pressure fd.max_pressure layout fd.starting_key_number
      ok (if outside then some pressure else none))
    else (do
      outside ←
          is_outside min_tap_touch_diameter max_tap_touch_diameter fd.max_touch_major layout
            fd.starting_key_number
      ok (if outside then some touch_diameter else none))

-- `down_sent_ = true` on the finger of a key-down event, if it is still tracked.
abbrev pub mark_down_sent : Event → Keyboard → Keyboard
mark_down_sent ev kb =
    if ev.is_down
    then elim (find ev.tid kb.finger_data) [
      | none ↦ kb
      | some fd ↦ record kb {
        finger_data = insert ev.tid (record fd { down_sent = true }) kb.finger_data;
      }
    ]
    else kb

unfoldable pub send_key : Os → Event → Keyboard → Result Keyboard
send_key os ev kb = do
  trace ← send_event os kb.fd kb.trace ev_key ev.ev_code (if ev.is_down then pos 1 else pos 0)
  ok (mark_down_sent ev (record kb { trace = trace }))

-- The body of the inner loop for an event that was popped; the flag is the new needs_syn.
unfoldable pub fire_event : Os → Event → Keyboard → Bool → Result (Keyboard × Bool)
fire_event os ev kb needs_syn = elim (find ev.tid kb.finger_data) [
  | none ↦ (do kb' ← send_key os ev kb; ok (kb', true))
  | some fd ↦ (do
    rejection ← tap_rejection kb.layout fd
    elim rejection [
      | none ↦ (do kb' ← send_key os ev kb; ok (kb', true))
      | some reason ↦ ok (reject_finger ev.tid reason kb, needs_syn)
    ])
]

-- The loop over pending events. A round takes at least one event off, so the length of the queue is
-- fuel enough.
unfoldable pub fire_pending : ℕ → Os → Timespec → Keyboard → Bool → Result (Keyboard × Bool)
fire_pending zero os now kb needs_syn = ok (kb, needs_syn)
fire_pending (suc fuel) os now kb needs_syn = elim kb.pending_events [
  | [] ↦ ok (kb, needs_syn)
  | next_event ∷ rest ↦ elim (timespec_is_later next_event.deadline now) [
    | true ↦ ok (kb, needs_syn)
    | false ↦ fire_event os next_event (record kb { pending_events = rest }) needs_syn >>= λ r.
        fire_pending fuel os now r.0 r.1
  ]
]

-- The end of a round: the pending events that are due, and a SYN after them.
unfoldable pub flush : Os → Timespec → Keyboard → Result Keyboard
flush os now kb = do
  fired ← fire_pending (length kb.pending_events) os now kb false
  if fired.1
      then (do
        trace ← send_event os fired.0.fd fired.0.trace ev_syn syn_report (pos 0)
        ok (record fired.0 { trace = trace }))
      else ok fired.0

-- The snapshot behind the pointer that AddEvent was given.
abbrev pub filled_snapshot : Option Snapshot → Snapshot
filled_snapshot none = []
filled_snapshot (some snapshot) = snapshot

-- A round after GetNextEvent has returned an event, or none at a timeout, at the time `now`.
unfoldable pub round : Os → Timespec → Option InputEvent → Keyboard → Result Keyboard
round os now polled kb = elim polled [
  | none ↦ flush os now kb
  | some ev ↦
      let added = add_event kb.sm ev (some []) in
      let kb' : Keyboard = record kb { sm = added.machine } in
      if added.complete
      then process_incoming_snapshot os now (filled_snapshot added.out_snapshot) kb'
        >>= flush os now
      else ok kb'
]

unfoldable pub consume : Os → List (Timespec × Option InputEvent) → Keyboard → Result Keyboard
consume os [] kb = ok kb
consume os ((now, polled) ∷ rounds) kb = round os now polled kb >>= consume os rounds

-- The conversion of a long to a 32-bit int keeps the lower bits.
unfoldable pub narrow : ℤ → ℤ
narrow (pos n) = let r = n % 2 ^ 32 in if ltb r (2 ^ 31) then pos r else negsuc (2 ^ 32 - 1 - r)
narrow (negsuc n) = let r = n % 2 ^ 32 in if ltb r (2 ^ 31) then negsuc r else pos (2 ^ 32 - 1 - r)

-- The timeout of a round in ms, -1 for none. The increment of the largest int overflows.
unfoldable pub timeout_ms : Timespec → List Event → Result ℤ
timeout_ms now [] = ok (negsuc 0)
timeout_ms now (front ∷ q) =
    let narrowed = narrow (
      scale_ℤ (sub_ℕ front.deadline.tv_sec now.tv_sec) 1000
      +ℤ div_ℤ (sub_ℕ front.deadline.tv_nsec now.tv_nsec) 1000000) in
    let wait = narrowed +ℤ pos 1 in
    if narrowed ==ℤ pos 2147483647
    then err undefined
    else ok (if ltb_ℤ wait (pos 0) then pos 1 else wait)

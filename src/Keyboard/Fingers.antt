-- ===== src/Keyboard/Fingers.antt =====
-- What FakeKeyboard does when fingers arrive, move and leave (fake_keyboard.cc).
use halo_keyboard.Prelude.{
  ℕ, ℤ, pos, negsuc, suc, Bool, true, false, not, ◌&&◌, List, [], ◌∷◌, Option, none, some, Map,
  find, insert, erase, get_elem?, max_ℤ, ◌==◌, ◌==ℤ◌, if◌then◌else◌, int_eq,
}
use halo_keyboard.Input.{key_fn}
use halo_keyboard.System.{Os, Result, ok, err, out_of_range, ◌>>=◌}
use halo_keyboard.Haptics.Manager.{finger_down, event_triggered}
use halo_keyboard.Multitouch.StateMachine.{MtFinger, Snapshot}
use halo_keyboard.Keyboard.Key.{Key, contains}
use halo_keyboard.Keyboard.Time.{Timespec, add_ms_to_timespec}
use halo_keyboard.Keyboard.Queue.{Event, new_event, enqueue, erase_events, guarantee, found_up}
use halo_keyboard.Keyboard.State.{
  Keyboard, FingerData, RejectionStatus, not_rejected_yet, touchdown_off_key, moved_off_key,
  event_delay_ms, no_key, old_tid,
}

abbrev pub is_not_rejected : RejectionStatus → Bool
is_not_rejected not_rejected_yet = true
is_not_rejected _ = false

-- EnqueueEvent
abbrev pub enqueue_event : Event → Keyboard → Keyboard
enqueue_event ev kb = record kb { pending_events = enqueue ev kb.pending_events }

unfoldable pub enqueue_key_up_event : ℕ → Timespec → Keyboard → Keyboard
enqueue_key_up_event ev_code now =
    enqueue_event
      (record (new_event ev_code false (add_ms_to_timespec now event_delay_ms) old_tid) {
        is_guaranteed = true;
      })

-- An assignment to fn_key_pressed_ in the branch of a test on an event code.
abbrev pub set_fn_if : ℕ → Bool → Keyboard → Keyboard
set_fn_if event_code pressed kb = record kb {
  fn_key_pressed = if event_code == key_fn then pressed else kb.fn_key_pressed;
}

-- The loop over the layout: the first key at the point, with its number.
unfoldable pub key_at : ℕ → List Key → ℤ → ℤ → Option (ℕ × Key)
key_at key_num [] x y = none
key_at key_num (key ∷ layout) x y =
    if contains key x y then some (key_num, key) else key_at (suc key_num) layout x y

abbrev pub code_of_key : Bool → Key → ℕ
code_of_key fn key =
    if fn && not (key.event_code_fn == 0) then key.event_code_fn else key.event_code

-- The key number, `*event_code` and the new state.
unfoldable pub generate_event_for_arriving_finger :
    Timespec → MtFinger → ℤ → ℕ → Keyboard → ℤ × ℕ × Keyboard
generate_event_for_arriving_finger now finger tid event_code kb =
    elim (key_at 0 kb.layout finger.x finger.y) [
      | none ↦ (no_key, event_code, kb)
      | some (key_num, key) ↦
          let code = code_of_key kb.fn_key_pressed key in
          (
            pos key_num,
            code,
            enqueue_event (new_event code true (add_ms_to_timespec now event_delay_ms) tid) kb,
          )
    ]

-- The end of HandleLeavingFinger: a key-up is enqueued.
unfoldable pub release_key : ℕ → Timespec → Keyboard → Keyboard
release_key event_code now kb = set_fn_if event_code false (enqueue_key_up_event event_code now kb)

unfoldable pub handle_leaving_finger : ℤ → FingerData → Timespec → Keyboard → Keyboard
handle_leaving_finger tid finger now kb =
    if not (is_not_rejected finger.rejection_status)
    then kb
    else if finger.down_sent
    then release_key finger.event_code now kb
    else (let marked = record kb { pending_events = guarantee tid kb.pending_events } in
        if found_up tid kb.pending_events then marked else release_key finger.event_code now marked)

-- layout_.at
unfoldable pub layout_at : List Key → ℤ → Option Key
layout_at layout (pos n) = get_elem? layout n
layout_at layout (negsuc n) = none

unfoldable pub still_on_first_key : MtFinger → FingerData → Keyboard → Result Bool
still_on_first_key finger fd kb =
    if fd.starting_key_number ==ℤ no_key
    then ok false
    else elim (layout_at kb.layout fd.starting_key_number) [
      | none ↦ err out_of_range
      | some key ↦ ok (contains key finger.x finger.y)
    ]

unfoldable pub reject_finger : ℤ → RejectionStatus → Keyboard → Keyboard
reject_finger tid reason kb = elim (find tid kb.finger_data) [
  | none ↦ kb
  | some fd ↦ set_fn_if fd.event_code false (record kb {
    finger_data = insert tid (record fd { rejection_status = reason }) kb.finger_data;
    pending_events = erase_events tid kb.pending_events;
  })
]

-- A finger that is not in finger_data_.
unfoldable pub arrive : Os → Timespec → ℤ → MtFinger → Keyboard → Keyboard
arrive os now tid finger kb =
    let (key, event_code, kb') = generate_event_for_arriving_finger now finger tid 0 kb in
    let off_key = key ==ℤ no_key in
    let fd : FingerData = record {
      arrival_time = now;
      max_pressure = finger.p;
      max_touch_major = finger.touch_major;
      starting_key_number = key;
      event_code = event_code;
      down_sent = false;
      rejection_status = if off_key then touchdown_off_key else not_rejected_yet;
    } in
    let pressed = set_fn_if event_code true kb' in
    record pressed {
      trace =
          if off_key
          then pressed.trace
          else event_triggered os pressed.ff_manager finger_down finger.x finger.y pressed.trace;
      finger_data = insert tid fd pressed.finger_data;
    }

-- A finger that is in finger_data_ with the data `fd` and is not rejected.
unfoldable pub move : Timespec → ℤ → MtFinger → FingerData → Keyboard → Result Keyboard
move now tid finger fd kb = do
  let updated : FingerData = record fd {
    max_pressure = max_ℤ fd.max_pressure finger.p;
    max_touch_major = max_ℤ fd.max_touch_major finger.touch_major;
  }
  let kb' : Keyboard = record kb { finger_data = insert tid updated kb.finger_data }
  still ← still_on_first_key finger updated kb'
  ok (
      if still
      then kb'
      else if fd.down_sent
      then set_fn_if fd.event_code false
          (enqueue_key_up_event fd.event_code now (reject_finger tid moved_off_key kb'))
      else reject_finger tid moved_off_key kb')

-- One entry of the snapshot.
unfoldable pub process_finger : Os → Timespec → ℤ → MtFinger → Keyboard → Result Keyboard
process_finger os now tid finger kb = elim (find tid kb.finger_data) [
  | none ↦ ok (arrive os now tid finger kb)
  | some fd ↦ if is_not_rejected fd.rejection_status then move now tid finger fd kb else ok kb
]

-- The first loop of ProcessIncomingSnapshot, over the entries in their order of iteration.
unfoldable pub process_fingers : Os → Timespec → Snapshot → Keyboard → Result Keyboard
process_fingers os now [] kb = ok kb
process_fingers os now ((tid, finger) ∷ snapshot) kb = do
  kb' ← process_finger os now tid finger kb
  process_fingers os now snapshot kb'

-- One entry of finger_data_ in the second loop, which erases while it iterates.
unfoldable pub leave : Timespec → Snapshot → ℤ → FingerData → Keyboard → Keyboard
leave now snapshot tid fd kb = elim (find tid snapshot) [
  | none ↦
      if not (tid ==ℤ old_tid)
      then (let kb' = handle_leaving_finger tid fd now kb in
          record kb' { finger_data = erase tid kb'.finger_data })
      else kb
  | some _ ↦ kb
]

unfoldable pub leave_all : Timespec → Snapshot → Map ℤ FingerData → Keyboard → Keyboard
leave_all now snapshot [] kb = kb
leave_all now snapshot ((tid, fd) ∷ entries) kb =
    leave_all now snapshot entries (leave now snapshot tid fd kb)

unfoldable pub process_incoming_snapshot : Os → Timespec → Snapshot → Keyboard → Result Keyboard
process_incoming_snapshot os now snapshot kb = do
  kb' ← process_fingers os now snapshot kb
  ok (leave_all now snapshot kb'.finger_data kb')

-- ===== src/Touchpad/Sync.antt =====
-- FakeTouchpad::Consume and what it calls.
use halo_keyboard.Prelude.{
  ℕ, suc, ℤ, pos, negsuc, ◌+◌, Bool, true, false, not, ◌&&◌, ◌||◌, List, [], ◌∷◌, none, some,
  get_elem?, modify, ltb, ◌==◌, ◌==ℤ◌, if◌then◌else◌,
}
use halo_keyboard.Input.{
  InputEvent, ev_syn, ev_key, ev_abs, syn_report, abs_mt_slot, abs_mt_tracking_id, btn_touch,
  btn_tool_finger, btn_tool_doubletap, btn_tool_tripletap, btn_tool_quadtap,
}
use halo_keyboard.System.{Syscall, Os, Result, ok, err, undefined, ◌>>=◌}
use halo_keyboard.Uinput.{send_event}
use halo_keyboard.Multitouch.EventKey.{EventKey, is_tracking_id, is_supported_for_touchpads}
use halo_keyboard.Multitouch.Slot.{Slot, find_value_by_event}
use halo_keyboard.Multitouch.StateMachine.{add_event}
use halo_keyboard.Touchpad.Region.{Region, Touchpad, contains, to_region}

-- One value of a slot.
unfoldable pub send_value : Os → Region → ℤ → EventKey → ℤ → List Syscall → Result (List Syscall)
send_value os g fd key value trace =
    if not (is_supported_for_touchpads key)
    then ok trace
    else (let (code, moved) = to_region g key value in send_event os fd trace key.type code moved)

-- The value makes the contact of its slot a current one.
abbrev pub makes_valid : EventKey → ℤ → Bool
makes_valid key value =
    is_supported_for_touchpads key && is_tracking_id key && not (value ==ℤ negsuc 0)

-- PassEventsThrough, over the values of the slot in their order of iteration.
unfoldable pub pass_events_through :
    Os → Region → ℤ → Slot → Bool → List Syscall → Result (Bool × List Syscall)
pass_events_through os g fd [] is_valid trace = ok (is_valid, trace)
pass_events_through os g fd ((key, value) ∷ slot) is_valid trace = do
  trace' ← send_value os g fd key value trace
  pass_events_through os g fd slot (is_valid || makes_valid key value) trace'

-- `slot_memberships_[slot] = member`, after the calls `trace`.
abbrev pub set_membership : ℕ → Bool → List Syscall → Touchpad → Touchpad
set_membership index member trace tp = record tp {
  slot_memberships = modify tp.slot_memberships index (λ _. member);
  trace = trace;
}

-- The body of the loop of SyncTouchEvents for a slot that was a member of the region or not; the
-- flag says whether it is counted.
unfoldable pub sync_slot : Os → ℕ → Slot → Bool → Touchpad → Result (Bool × Touchpad)
sync_slot os index source_slot member tp = do
  trace ← send_event os tp.fd tp.trace ev_abs abs_mt_slot (pos index)
  if not (contains tp.region source_slot)
      then (do
        trace' ←
            (if member
              then send_event os tp.fd trace ev_abs abs_mt_tracking_id (negsuc 0)
              else ok trace)
        ok (false, set_membership index false trace' tp))
      else (do
        trace' ←
            (if not member
              then send_event os tp.fd trace ev_abs abs_mt_tracking_id
                  (find_value_by_event source_slot ev_abs abs_mt_tracking_id)
              else ok trace)
        passed ← pass_events_through os tp.region tp.fd source_slot false trace'
        ok (passed.0, set_membership index true passed.1 tp))

-- The loop over the slots of the state machine, of which there are kNumSlots, from `index` on.
unfoldable pub sync_slots : Os → ℕ → List Slot → ℕ → Touchpad → Result (ℕ × Touchpad)
sync_slots os index [] touch_count tp = ok (touch_count, tp)
sync_slots os index (source_slot ∷ slots) touch_count tp =
    elim (get_elem? tp.slot_memberships index) [
      | none ↦ err undefined
      | some member ↦ (do
        synced ← sync_slot os index source_slot member tp
        sync_slots os (suc index) slots (if synced.0 then touch_count + 1 else touch_count)
            synced.1)
    ]

unfoldable pub sync_touch_events : Os → Touchpad → Result (ℕ × Touchpad)
sync_touch_events os tp = sync_slots os 0 tp.sm.slots 0 tp

abbrev pub one_or_zero : Bool → ℤ
one_or_zero b = if b then pos 1 else pos 0

unfoldable pub send_touchpad_btn_events : Os → ℕ → Touchpad → Result Touchpad
send_touchpad_btn_events os touch_count tp = do
  t1 ← send_event os tp.fd tp.trace ev_key btn_touch (one_or_zero (ltb 0 touch_count))
  t2 ← send_event os tp.fd t1 ev_key btn_tool_finger (one_or_zero (touch_count == 1))
  t3 ← send_event os tp.fd t2 ev_key btn_tool_doubletap (one_or_zero (touch_count == 2))
  t4 ← send_event os tp.fd t3 ev_key btn_tool_tripletap (one_or_zero (touch_count == 3))
  t5 ← send_event os tp.fd t4 ev_key btn_tool_quadtap (one_or_zero (touch_count == 4))
  ok (record tp { trace = t5 })

-- One round of Consume, after GetNextEvent has returned an event.
unfoldable pub round : Os → InputEvent → Touchpad → Result Touchpad
round os ev tp =
    let added = add_event tp.sm ev none in
    let tp' : Touchpad = record tp { sm = added.machine } in
    if added.complete
    then (do
      synced ← sync_touch_events os tp'
      pressed ← send_touchpad_btn_events os synced.0 synced.1
      trace ← send_event os pressed.fd pressed.trace ev_syn syn_report (pos 0)
      ok (record pressed { trace = trace }))
    else ok tp'

-- ===== src/Keyboard/Runs.antt =====
-- FakeKeyboard::Consume as a relation between states: what holds of every state that it reaches.
use halo_keyboard.Prelude.{
  refl, ℕ, ℤ, pos, ◌+◌, ◌≡◌, [], Option, none, some, find, arith, count_if, one_if, int_eq, false,
  true, Bool, List, ◌∷◌, ap, ◌∙◌, find-erase, ==ℤ_iff, if◌then◌else◌,
}
use halo_keyboard.Input.{InputEvent, ev_key}
use halo_keyboard.System.{Os, ok, write_event, Syscall}
use halo_keyboard.Uinput.Writes.{Ends-ok, Ends, Ends-bind, Ends-map, done, send_event-Ends}
use halo_keyboard.Multitouch.StateMachine.{Snapshot}
use halo_keyboard.Keyboard.Time.{Timespec, add_ms_to_timespec}
use halo_keyboard.Keyboard.Queue.{new_event, guarantee, Event}
use halo_keyboard.Keyboard.State.{Keyboard, FingerData, event_delay_ms, old_tid}
use halo_keyboard.Keyboard.Fingers.{
  is_not_rejected, leave, handle_leaving_finger, release_key, enqueue_key_up_event,
}
use halo_keyboard.Keyboard.Consume.{round, fire_event, send_key}
use halo_keyboard.Keyboard.Tracking.{is_waiting}
use halo_keyboard.Keyboard.Counts.{has_tid, count_if-enqueue}
use halo_keyboard.Keyboard.Balance.{is_sent, owes_down, has_code, guarantee-owes}
use halo_keyboard.Keyboard.Soundness.{IsSound}
use halo_keyboard.Keyboard.Departures.{not_old, no_up}
use halo_keyboard.Keyboard.Rounds.{CanReport, round-Ends}
use halo_keyboard.Uinput.{event_of}

pub data Run (os : Os) (kb : Keyboard) : Keyboard → Type 0 where
  start : Run os kb kb
  next :
      {k k' : Keyboard}
      → Run os kb k
      → (now : Timespec) (polled : Option InputEvent) → CanReport k polled
      → round os now polled k ≡ ok k'
      → Run os kb k'

-- A FakeKeyboard that tracks no finger, has no event pending and has written no more key-downs than
-- key-ups, such as a new one, is sound.
pub quiet-IsSound :
    (kb : Keyboard)
    → kb.finger_data ≡ []
    → kb.pending_events ≡ []
    → ((c : ℕ) → count_if (is_sent c (pos 1)) kb.trace ≡ count_if (is_sent c (pos 0)) kb.trace)
    → IsSound kb
unfolding find
quiet-IsSound kb f q b = record {
  tracking = record {
    distinct = rw f tt;
    no_old = rw f refl;
    events = rw q tt;
    fingers = λ t fd e. ground (arith, e, f);
  };
  sorted = rw q tt;
  balanced = λ c. ground (arith, b c, f, q);
}

-- Every state that Consume reaches from a sound one by rounds whose frames can be reported, with
-- any system and any clock, is sound: no key number out of the layout, one pending event for each
-- finger that waits, deadlines in order, key-downs balanced by key-ups.
pub Run-IsSound : {os : Os} {kb k : Keyboard} → IsSound kb → Run os kb k → IsSound k
Run-IsSound v start = v
Run-IsSound {os} v (next {k = k} r now polled h e) =
    (Ends-ok (round-Ends os now polled k h (Run-IsSound v r)) e).0

-- No key sticks: in every state that is reached from a sound one, and has no finger tracked and no
-- event pending, as many key-ups as key-downs have been written for each code.
pub no_stuck_key :
    {os : Os} {kb k : Keyboard} (c : ℕ)
    → IsSound kb
    → Run os kb k
    → k.finger_data ≡ []
    → k.pending_events ≡ []
    → count_if (is_sent c (pos 1)) k.trace ≡ count_if (is_sent c (pos 0)) k.trace
no_stuck_key c v r f q = let w = (Run-IsSound v r).balanced c in ground (arith, w, f, q)

leave_guarantees :
    (now : Timespec) (snapshot : Snapshot) (t : ℤ) (fd : FingerData) (kb : Keyboard) (c : ℕ)
    → IsSound kb
    → find t kb.finger_data ≡ some fd
    → is_waiting fd ≡ true
    → find t snapshot ≡ none
    → count_if (owes_down c) (leave now snapshot t fd kb).pending_events
      ≡ count_if (owes_down c) kb.pending_events + one_if (has_code c fd.event_code)
unfolding leave handle_leaving_finger release_key enqueue_key_up_event
leave_guarantees now snapshot t fd kb c v f w n =
    let o = not_old now snapshot t fd kb v f in
    let u = no_up now snapshot t fd kb v f in
    let r : is_not_rejected fd.rejection_status ≡ true = ground arith in
    let d : fd.down_sent ≡ false = ground arith in
    let one : count_if (has_tid t) kb.pending_events ≡ 1 =
      ground (arith, v.tracking.fingers t fd f) in
    let g =
      guarantee-owes c t fd kb.finger_data kb.pending_events f v.tracking.no_old one
        v.tracking.events in
    rw (n, leave, o, r, d, u, handle_leaving_finger, release_key, enqueue_key_up_event)
      (ground (
        arith,
        g.0,
        count_if-enqueue (owes_down c)
            (record (new_event fd.event_code false (add_ms_to_timespec now event_delay_ms)
              old_tid) { is_guaranteed = true })
            (guarantee t kb.pending_events),
      ))

-- The finger that has left is tracked no more, and the descriptor is as it was.
leave_forgets :
    (now : Timespec) (snapshot : Snapshot) (t : ℤ) (fd : FingerData) (kb : Keyboard)
    → IsSound kb
    → find t kb.finger_data ≡ some fd
    → find t snapshot ≡ none
    → (find t (leave now snapshot t fd kb).finger_data ≡ none)
      × ((leave now snapshot t fd kb).fd ≡ kb.fd)
      × ((leave now snapshot t fd kb).trace ≡ kb.trace)
unfolding leave handle_leaving_finger release_key enqueue_key_up_event
leave_forgets now snapshot t fd kb v f n =
    let o = not_old now snapshot t fd kb v f in
    let g = find-erase t t kb.finger_data v.tracking.distinct in
    rw (n, leave, o) (ground (arith, g, ==ℤ_iff t t), ground arith, ground arith)

abbrev key_written : Event → Keyboard → List Syscall
key_written e kb =
    write_event kb.fd (event_of ev_key e.ev_code (if e.is_down then pos 1 else pos 0)) ∷ kb.trace

send_key-untracked :
    (os : Os) (e : Event) (kb : Keyboard)
    → find e.tid kb.finger_data ≡ none
    → Ends os (λ k. k.trace ≡ key_written e kb) (send_key os e kb)
unfolding send_key
send_key-untracked os e kb f =
    Ends-bind
      (send_event-Ends os kb.fd kb.trace ev_key e.ev_code (if e.is_down then pos 1 else pos 0))
      λ trace x. done (ground (arith, x, f))

-- An event of a finger that is not tracked is written, whatever it is.
fire_event-untracked :
    (os : Os) (e : Event) (kb : Keyboard) (b : Bool)
    → find e.tid kb.finger_data ≡ none
    → Ends os (λ r. (r.1 ≡ true) × (r.0.trace ≡ key_written e kb)) (fire_event os e kb b)
unfolding fire_event
fire_event-untracked os e kb b f =
    rw (f, fire_event) (Ends-bind (send_key-untracked os e kb f) λ k x. done (refl, x))

-- In a sound state, a finger that leaves before its key-down was sent: exactly one more key-down of
-- its code is marked as guaranteed in the queue, and when Consume takes an event of this finger off
-- the queue of the state after that, it writes the event whatever the pressure and the diameter of
-- the finger were, or throws for an incomplete write.
pub leave_unchecked :
    (os : Os) (now : Timespec) (snapshot : Snapshot) (t : ℤ) (fd : FingerData) (kb : Keyboard)
    (c : ℕ) (e : Event) (rest : List Event) (needs_syn : Bool)
    → IsSound kb
    → find t kb.finger_data ≡ some fd
    → is_waiting fd ≡ true
    → find t snapshot ≡ none
    → e.tid ≡ t
    → (count_if (owes_down c) (leave now snapshot t fd kb).pending_events
        ≡ count_if (owes_down c) kb.pending_events + one_if (has_code c fd.event_code))
      × Ends os
          (λ r.
            (r.1 ≡ true)
            × (r.0.trace
                ≡ write_event kb.fd (event_of ev_key e.ev_code (if e.is_down then pos 1 else pos 0))
                  ∷ kb.trace))
          (fire_event os e
            (record (leave now snapshot t fd kb) { pending_events = rest })
            needs_syn)
leave_unchecked os now snapshot t fd kb c e rest needs_syn v f w n q =
    let (gone, same_fd, same_trace) = leave_forgets now snapshot t fd kb v f n in
    (
      leave_guarantees now snapshot t fd kb c v f w n,
      Ends-map
          (fire_event-untracked os e (record (leave now snapshot t fd kb) { pending_events = rest })
            needs_syn (ap (λ i. find i (leave now snapshot t fd kb).finger_data) q ∙ gone))
          λ r p. (p.0, ground (arith, p.1, same_fd, same_trace)),
    )

-- ===== src/Keyboard/Firing.antt =====
-- The loop of Consume over the pending events: it reads the layout within its bounds, keeps the
-- FakeKeyboard sound, and leaves no event that is due.
use halo_keyboard.Prelude.{
  ℕ, ℤ, pos, negsuc, ◌≡◌, refl, true, false, not, ◌&&◌, List, ◌∷◌, Option, none, some, Option-cases,
  ◌||◌, ltb_ℤ, inl, inr, ◌||◌, find, insert, arith, ◌==◌, ◌==ℤ◌, if◌then◌else◌, int_eq,
  count_values-insert_old,
}
use halo_keyboard.System.{Os, ok, Syscall}
use halo_keyboard.Keyboard.Key.{Key}
use halo_keyboard.Keyboard.Queue.{Event, erase_events}
use halo_keyboard.Keyboard.State.{Keyboard, FingerData, RejectionStatus, pressure, touch_diameter}
use halo_keyboard.Keyboard.Fingers.{is_not_rejected, layout_at, reject_finger}
use halo_keyboard.Keyboard.Ordering.{erase_events-IsSorted}
use halo_keyboard.Keyboard.Tracking.{is_key}
use halo_keyboard.Keyboard.Balance.{Even, holds, reject-Even}
use halo_keyboard.Keyboard.Soundness.{IsSound}
use halo_keyboard.Keyboard.Preservation.{pop_untracked, pop_sent, pop_rejected, popped}
use halo_keyboard.Uinput.{event_of}
use halo_keyboard.Input.{ev_key, key_space}
use halo_keyboard.Keyboard.Consume.{
  is_outside, tap_rejection, send_key, mark_down_sent, min_tap_pressure, max_tap_pressure,
  min_tap_touch_diameter, max_tap_touch_diameter,
}
use halo_keyboard.System.{write_event}
use halo_keyboard.Uinput.Writes.{Ends, Ends-bind, send_event-Ends, done}

-- The pressure and diameter tests read the layout at a key of it, and a rejection is one.
pub tap_rejection_total :
    (layout : List Key) (fd : FingerData)
    → is_key layout fd.starting_key_number ≡ true
    → (o : Option RejectionStatus) × (tap_rejection layout fd ≡ ok o)
      × ((reason : RejectionStatus) → o ≡ some reason → is_not_rejected reason ≡ false)
unfolding tap_rejection is_outside
tap_rejection_total layout fd k = elim (Option-cases (layout_at layout fd.starting_key_number)) [
  | inl e ↦ absurd (ground (arith, e))
  | inr (key, e) ↦ (outcome key, ground (arith, e), λ reason h. ground (arith, h))
]
  where
    verdict : ℤ → ℤ → ℤ → Key → RejectionStatus → Option RejectionStatus
    verdict low high w key reason =
        if ltb_ℤ w low || (not (key.event_code == key_space) && ltb_ℤ high w)
        then some reason
        else none

    outcome : Key → Option RejectionStatus
    outcome key =
        if fd.max_pressure ==ℤ negsuc 0
        then verdict min_tap_touch_diameter max_tap_touch_diameter fd.max_touch_major key
            touch_diameter
        else verdict min_tap_pressure max_tap_pressure fd.max_pressure key pressure

abbrev sent_call : Event → ℤ → Syscall
sent_call e fd = write_event fd (event_of ev_key e.ev_code (if e.is_down then pos 1 else pos 0))

mark_down_sent-untracked :
    (e : Event) (kb : Keyboard) → find e.tid kb.finger_data ≡ none → mark_down_sent e kb ≡ kb
mark_down_sent-untracked e kb f = ground arith

mark_down_sent-tracked :
    (e : Event) (kb : Keyboard) (fd : FingerData)
    → find e.tid kb.finger_data ≡ some fd
    → e.is_down ≡ true
    → mark_down_sent e kb
      ≡ record kb { finger_data = insert e.tid (record fd { down_sent = true }) kb.finger_data }
mark_down_sent-tracked e kb fd f d = ground arith

module _ (os : Os) (e : Event) (q : List Event) (kb : Keyboard)
    (v : IsSound (record kb { pending_events = e ∷ q })) where
  abbrev pub popped_kb : Keyboard
  popped_kb = record kb { pending_events = q }

  untracked-Balanced :
      find e.tid kb.finger_data ≡ none
      → (c : ℕ) → Even c kb.finger_data q (sent_call e kb.fd ∷ kb.trace)
  untracked-Balanced f c = ground (arith, f, v.balanced c, v.tracking.events.0)

  pub send_key_untracked-IsSound :
      find e.tid kb.finger_data ≡ none
      → Ends os (λ kb'. IsSound kb' × (kb'.pending_events ≡ q)) (send_key os e popped_kb)
  unfolding send_key
  send_key_untracked-IsSound f =
      Ends-bind (send_event-Ends os kb.fd kb.trace ev_key e.ev_code _) λ tr eq. done (
        rw (mark_down_sent-untracked e (record popped_kb { trace = tr }) f) (
          record {
            tracking = pop_untracked kb.layout kb.finger_data e q v.tracking f;
            sorted = v.sorted.1;
            balanced = λ c. rw eq (untracked-Balanced f c);
          },
          refl,
        ))

  module _ (fd : FingerData) (f : find e.tid kb.finger_data ≡ some fd) where
    tracked-Balanced :
        (c : ℕ)
        → Even c
            (insert e.tid (record fd { down_sent = true }) kb.finger_data)
            q
            (sent_call e kb.fd ∷ kb.trace)
    tracked-Balanced c = ground (
      arith,
      v.balanced c,
      popped kb.layout kb.finger_data e q v.tracking fd f,
      count_values-insert_old (holds c) e.tid (record fd { down_sent = true }) fd kb.finger_data f,
    )

    pub send_key_tracked-IsSound :
        Ends os (λ kb'. IsSound kb' × (kb'.pending_events ≡ q)) (send_key os e popped_kb)
    unfolding send_key
    send_key_tracked-IsSound =
        Ends-bind (send_event-Ends os kb.fd kb.trace ev_key e.ev_code _) λ tr eq. done (
          rw
            (mark_down_sent-tracked e (record popped_kb { trace = tr }) fd f
              (popped kb.layout kb.finger_data e q v.tracking fd f).2)
            (
              record {
                tracking = pop_sent kb.layout kb.finger_data e q v.tracking fd f;
                sorted = v.sorted.1;
                balanced = λ c. rw eq (tracked-Balanced c);
              },
              refl,
            ))

    popped-Even : (c : ℕ) → Even c kb.finger_data q kb.trace
    popped-Even c =
        ground (arith, v.balanced c, popped kb.layout kb.finger_data e q v.tracking fd f)

    pub reject_popped-IsSound :
        (reason : RejectionStatus)
        → is_not_rejected reason ≡ false
        → IsSound (reject_finger e.tid reason popped_kb)
          × ((reject_finger e.tid reason popped_kb).pending_events ≡ erase_events e.tid q)
    unfolding reject_finger
    reject_popped-IsSound reason r =
        rw (f, reject_finger)
          (
            record {
              tracking = pop_rejected kb.layout kb.finger_data e q v.tracking fd _ f r;
              sorted = erase_events-IsSorted e.tid q v.sorted.1;
              balanced = λ c.
                  reject-Even c kb.finger_data q kb.trace (popped-Even c) e.tid fd _ f
                    v.tracking.no_old v.tracking.events.1
                    (ground (arith, popped kb.layout kb.finger_data e q v.tracking fd f))
                    (ground arith);
            },
            refl,
          )

-- ===== src/Touchpad/Showing.antt =====
-- The session of the virtual touchpad as a reader sees it: from the layout file to a frame.
use halo_keyboard.Prelude.{
  ℤ, ◌∙◌, not, ◌&&◌, List, Option, none, some, Bool-cases, inl, inr, All, All-map, refl, arith,
  get_elem?-length, find, ℕ, get_elem?, ◌≡◌, true,
}
use halo_keyboard.Input.{InputEvent}
use halo_keyboard.System.{
  Os, Syscall, open_file, close_file, write_event, ioctl, select_file, read_event, Result, ok, Safe,
  Safe-bind, Safe-map, Safe-ok, result,
}
use halo_keyboard.Evdev.{no_timeout}
use halo_keyboard.Evdev.Polling.{IsPoll, read, waited, waited_and_read, get_next_event-Safe}
use halo_keyboard.Uinput.Writes.{Ends-Safe, done, Ends-both, Ends, Ends-map}
use halo_keyboard.Multitouch.Frames.{is_report, add_event_complete, after}
use halo_keyboard.Touchpad.Region.{Touchpad, contains}
use halo_keyboard.Touchpad.Sync.{round}
use halo_keyboard.Touchpad.Buttons.{IsSteady}
use halo_keyboard.Touchpad.Loop.{consume_once, Loop, enter, again, reordered}
use halo_keyboard.Touchpad.Reading.{IsPlain, reading, events_written, reading-reported}
use halo_keyboard.Touchpad.Plain.{KeepsPlain, round-KeepsPlain}
use halo_keyboard.Touchpad.Drawing.{round_draws}
use halo_keyboard.Touchpad.Buttons.{IsSteady-IsMatched}
use halo_keyboard.Touchpad.Sessions.{IsQuiet, polled-IsSteady, Loop-IsSteady}
use halo_keyboard.Multitouch.EventKey.{event_key_eq}
use halo_keyboard.Touchpad.Passing.{axis, source_code, value_shown, IsPassed}
use halo_keyboard.Multitouch.Slot.{Slot}

-- At the end of a frame, on a steady FakeTouchpad whose calls so far have lost no event and have
-- selected only slots below kNumSlots: another MtStateMachine that gets all events written to the
-- virtual device reads, in every slot whose contact is in the region, on each axis that is passed
-- on and for which the slot has a value, that value as value_shown places it on the turned sensor;
-- and the calls are still so. Or a write was incomplete.
pub round_reads_back :
    (os : Os) (ev : InputEvent) (tp : Touchpad) (code : ℕ)
    → IsSteady tp
    → All IsPlain tp.trace
    → (is_report ev && not tp.sm.dropping_events) ≡ true
    → IsPassed code
    → Ends os
        (λ tp'.
          All IsPlain tp'.trace
          × ((i : ℕ) (slot : Slot) (v : ℤ)
              → get_elem? tp.sm.slots i ≡ some slot
              → contains tp.region slot ≡ true
              → find (axis (source_code tp.region code)) slot ≡ some v
              → reading (after (events_written tp'.trace)) i code ≡ value_shown tp.region code v))
        (round os ev tp)
round_reads_back os ev tp code v p w s =
    Ends-map
      (Ends-both (round-KeepsPlain os ev tp v w)
        (round_draws os ev tp (IsSteady-IsMatched tp v) w code s))
      λ tp' (k, d). (
        k p,
        λ i slot x g c f.
            reading-reported code i tp'.trace (ground (arith, s))
              (omega (arith, v.machine.size, get_elem?-length tp.sm.slots i slot g)) (k p)
            ∙ d i slot g x c f,
      )

-- A round that reports no frame makes no call.
any_round-KeepsPlain :
    (os : Os) (ev : InputEvent) (tp : Touchpad)
    → IsSteady tp
    → KeepsPlain os (λ t. t.trace) tp.trace (round os ev tp)
unfolding round
any_round-KeepsPlain os ev tp v = elim (Bool-cases (is_report ev && not tp.sm.dropping_events)) [
  | inl w ↦ round-KeepsPlain os ev tp v w
  | inr w ↦ (let (c, t, u) = add_event_complete tp.sm ev none in rw (c ∙ w) (done λ h. h))
]

pub IsPoll-IsPlain :
    {trace trace' : List Syscall} → IsPoll trace trace' → All IsPlain trace → All IsPlain trace'
IsPoll-IsPlain (read fd) h = (refl, h)
IsPoll-IsPlain (waited n sec usec) h = (refl, h)
IsPoll-IsPlain (waited_and_read fd n sec usec) h = (refl, (refl, h))

consume_once-IsPlain :
    (os : Os) (source_fd : ℤ) (tp : Touchpad)
    → IsSteady tp
    → All IsPlain tp.trace
    → Safe (λ t. All IsPlain t.trace) (consume_once os source_fd tp)
unfolding consume_once
consume_once-IsPlain os source_fd tp v h =
    Safe-bind (get_next_event-Safe os source_fd no_timeout tp.trace refl) λ polled e p.
      handled polled.0 (record tp { trace = polled.1 }) (polled-IsSteady tp polled.1 p v)
        (IsPoll-IsPlain p h)
  where
    handled :
        (o : Option InputEvent) (t : Touchpad)
        → IsSteady t
        → All IsPlain t.trace
        → Safe
            (λ t'. All IsPlain t'.trace)
            (elim o as (λ _. Result Touchpad) [ none ↦ ok t | some ev ↦ round os ev t ])
    handled none t w k = result k
    handled (some ev) t w k = Safe-map (Ends-Safe (any_round-KeepsPlain os ev t w)) λ t' r. r k

pub Loop-IsPlain :
    {os : Os} {source_fd : ℤ} {tp t : Touchpad}
    → IsSteady tp
    → All IsPlain tp.trace
    → Loop os source_fd tp t
    → All IsPlain t.trace
Loop-IsPlain v h enter = h
Loop-IsPlain {os} {source_fd} v h (again {t = t} l e) =
    Safe-ok (consume_once-IsPlain os source_fd t (Loop-IsSteady v l).0 (Loop-IsPlain v h l)) e
Loop-IsPlain v h (reordered l slots r) = Loop-IsPlain v h l

quiet-IsPlain : (call : Syscall) → IsQuiet call → IsPlain call
quiet-IsPlain (open_file path) q = refl
quiet-IsPlain (close_file fd) q = refl
quiet-IsPlain (ioctl fd request) q = refl
quiet-IsPlain (select_file nfds sec usec) q = refl
quiet-IsPlain (read_event fd) q = refl
quiet-IsPlain (write_event fd ev) q = absurd (cc q)

pub IsQuiet-IsPlain : (trace : List Syscall) → All IsQuiet trace → All IsPlain trace
IsQuiet-IsPlain trace h = All-map _ _ trace quiet-IsPlain h

-- ===== src/Touchpad/Reading.antt =====
-- What a reader of the virtual touchpad sees: another MtStateMachine that gets the events that were
-- written.
use halo_keyboard.Prelude.{
  ℕ, ℤ, pos, negsuc, ◌<◌, ◌≡◌, refl, ap, ◌∙◌, Bool, true, false, not, ◌&&◌, ◌||◌, List, [], ◌∷◌,
  arith, All, leb_ℤ, ltb_ℤ, ◌==◌,
}
use halo_keyboard.Input.{InputEvent, abs_mt_slot}
use halo_keyboard.System.{
  Syscall, open_file, close_file, write_event, ioctl, select_file, read_event,
}
use halo_keyboard.Multitouch.EventKey.{event_key_eq, of_event, is_slot}
use halo_keyboard.Multitouch.StateMachine.{MtStateMachine, num_slots}
use halo_keyboard.Multitouch.Frames.{
  is_drop, out_of_step, cursor, written, after, slot_value, slot_value-after,
}
use halo_keyboard.Touchpad.Kernel.{selected, reported}
use halo_keyboard.Touchpad.Passing.{axis, either}

-- The events of a trace, newest first.
pub events_written : List Syscall → List InputEvent
events_written [] = []
events_written (open_file path ∷ trace) = events_written trace
events_written (close_file fd ∷ trace) = events_written trace
events_written (ioctl fd request ∷ trace) = events_written trace
events_written (select_file nfds sec usec ∷ trace) = events_written trace
events_written (read_event fd ∷ trace) = events_written trace
events_written (write_event fd ev ∷ trace) = ev ∷ events_written trace

-- FindValueByEvent on a slot of the reader.
pub reading : MtStateMachine → ℕ → ℕ → ℤ
reading sm j code = either (slot_value sm j (axis code)) (negsuc 0) (λ v. v)

-- No loss of events, and no selection of a slot that the reader does not have.
abbrev pub is_plain : Syscall → Bool
is_plain (open_file path) = true
is_plain (close_file fd) = true
is_plain (ioctl fd request) = true
is_plain (select_file nfds sec usec) = true
is_plain (read_event fd) = true
is_plain (write_event fd ev) =
    not (is_drop ev)
    && (not (is_slot (of_event ev)) || (leb_ℤ (pos 0) ev.value && ltb_ℤ ev.value (pos num_slots)))

abbrev pub IsPlain : Syscall → Type 0
IsPlain call = is_plain call ≡ true

plain-out_of_step :
    (trace : List Syscall) → All IsPlain trace → out_of_step (events_written trace) ≡ false
unfolding events_written out_of_step
plain-out_of_step [] h = refl
plain-out_of_step (call ∷ trace) h = ground (arith, h.0, plain-out_of_step trace h.1)

plain-cursor :
    (trace : List Syscall) → All IsPlain trace → cursor (events_written trace) ≡ selected trace
unfolding events_written cursor
plain-cursor [] h = refl
plain-cursor (call ∷ trace) h =
    ground (arith, h.0, plain-cursor trace h.1, plain-out_of_step trace h.1)

-- The value that was last written is what the kernel reports.
plain-written :
    (code j : ℕ) (trace : List Syscall)
    → (code == abs_mt_slot) ≡ false
    → All IsPlain trace
    → either (written (events_written trace) j (axis code)) (negsuc 0) (λ v. v)
      ≡ reported code (pos j) trace
unfolding events_written written
plain-written code j [] n h = refl
plain-written code j (call ∷ trace) n h = ground (
  arith,
  h.0,
  n,
  plain-written code j trace n h.1,
  plain-cursor trace h.1,
  plain-out_of_step trace h.1,
)

-- A reader sees on an axis what the kernel reports.
pub reading-reported :
    (code i : ℕ) (trace : List Syscall)
    → (code == abs_mt_slot) ≡ false
    → i < num_slots
    → All IsPlain trace
    → reading (after (events_written trace)) i code ≡ reported code (pos i) trace
unfolding reading
reading-reported code i trace n l h =
    ap (λ o. either o (negsuc 0) (λ v. v)) (slot_value-after (events_written trace) i (axis code) l)
    ∙ plain-written code i trace n h

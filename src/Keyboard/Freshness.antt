-- ===== src/Keyboard/Freshness.antt =====
-- Which tracking ids a frame may report without taking up the event of an earlier finger.
use halo_keyboard.Prelude.{
  ℤ, ◌≡◌, false, List, none, Option-cases, inl, inr, Map, find, find-insert, insert, arith,
  count_if, ◌==ℤ◌, ==ℤ_iff, int_eq,
}
use halo_keyboard.System.{Os}
use halo_keyboard.Multitouch.StateMachine.{MtFinger}
use halo_keyboard.Keyboard.Time.{Timespec}
use halo_keyboard.Keyboard.Queue.{Event, enqueue, erase_events}
use halo_keyboard.Keyboard.State.{Keyboard, FingerData, RejectionStatus, moved_off_key, old_tid}
use halo_keyboard.Keyboard.Fingers.{
  key_at, arrive, reject_finger, enqueue_key_up_event, generate_event_for_arriving_finger,
}
use halo_keyboard.Keyboard.Counts.{has_tid, count_if-enqueue, count_if-erase_events_ne}
use halo_keyboard.Keyboard.Touches.{stayed, strayed, strayed_down}

-- No pending event is left over from an earlier finger with the id `s`, if no finger has it now.
abbrev pub IsUnused : Map ℤ FingerData → List Event → ℤ → Type 0
IsUnused fds q s = find s fds ≡ none → count_if (has_tid s) q ≡ 0

abbrev pub IsFresh : Keyboard → ℤ → Type 0
IsFresh kb = IsUnused kb.finger_data kb.pending_events

-- A finger that may be reported: its id is not kOldTID, and not that of a finger that has just
-- left.
abbrev pub IsReportable : Keyboard → ℤ × MtFinger → Type 0
IsReportable kb entry = ((entry.0 ==ℤ old_tid) ≡ false) × IsFresh kb entry.0

module _ (fds : Map ℤ FingerData) (q : List Event) (s : ℤ) (h : IsUnused fds q s) where
  insert-IsUnused : (t : ℤ) (fd : FingerData) → (s ==ℤ t) ≡ false → IsUnused (insert t fd fds) q s
  insert-IsUnused t fd d g = ground (arith, h, g, find-insert t s fd fds, ==ℤ_iff s t, ==ℤ_iff t s)

  enqueue-IsUnused : (ev : Event) → (s ==ℤ ev.tid) ≡ false → IsUnused fds (enqueue ev q) s
  enqueue-IsUnused ev d g =
      ground (arith, h g, count_if-enqueue (has_tid s) ev q, ==ℤ_iff s ev.tid, ==ℤ_iff ev.tid s)

  erase_events-IsUnused : (t : ℤ) → (s ==ℤ t) ≡ false → IsUnused fds (erase_events t q) s
  erase_events-IsUnused t d g = ground (arith, h g, count_if-erase_events_ne t s q d)

module _ (s t : ℤ) (kb : Keyboard) (d : (s ==ℤ t) ≡ false) (h : IsFresh kb s) where
  reject_finger-IsFresh : (reason : RejectionStatus) → IsFresh (reject_finger t reason kb) s
  unfolding reject_finger
  reject_finger-IsFresh reason = elim (Option-cases (find t kb.finger_data)) [
    | inl e ↦ rw (e, reject_finger) h
    | inr (fd, e) ↦
        rw (e, reject_finger)
          (insert-IsUnused kb.finger_data (erase_events t kb.pending_events) s
            (erase_events-IsUnused kb.finger_data kb.pending_events s h t d) t _ d)
  ]

  pub arrive-IsFresh :
      (os : Os) (now : Timespec) (finger : MtFinger) → IsFresh (arrive os now t finger kb) s
  unfolding arrive generate_event_for_arriving_finger
  arrive-IsFresh os now finger = elim (Option-cases (key_at 0 kb.layout finger.x finger.y)) [
    | inl e ↦
        rw (e, arrive, generate_event_for_arriving_finger)
          (insert-IsUnused kb.finger_data kb.pending_events s h t _ d)
    | inr ((m, key), e) ↦
        rw (e, arrive, generate_event_for_arriving_finger)
          (insert-IsUnused kb.finger_data _ s
            (enqueue-IsUnused kb.finger_data kb.pending_events s h _ d) t _ d)
  ]

module _ (s t : ℤ) (kb : Keyboard) (d : (s ==ℤ t) ≡ false) (h : IsFresh kb s) (now : Timespec)
    (finger : MtFinger) (fd : FingerData) where
  pub stayed-IsFresh : IsFresh (stayed now t finger fd kb) s
  stayed-IsFresh = insert-IsUnused kb.finger_data kb.pending_events s h t _ d

  pub strayed-IsFresh : IsFresh (strayed now t finger fd kb) s
  strayed-IsFresh = reject_finger-IsFresh s t _ d stayed-IsFresh moved_off_key

  pub strayed_down-IsFresh : (s ==ℤ old_tid) ≡ false → IsFresh (strayed_down now t finger fd kb) s
  unfolding enqueue_key_up_event
  strayed_down-IsFresh o =
      let k = strayed now t finger fd kb in
      enqueue-IsUnused k.finger_data k.pending_events s strayed-IsFresh _ o

-- ===== src/Keyboard/Soundness.antt =====
-- A FakeKeyboard is sound when its fingers and pending events are in step, the queue is in order,
-- and key-downs are balanced by key-ups. A finger that arrives, moves or is rejected keeps it so.
use halo_keyboard.Prelude.{
  ℕ, ℤ, pos, ◌≡◌, refl, true, false, List, none, some, Option-cases, inl, inr, find, find-insert,
  arith, count_if, ◌==ℤ◌, ==ℤ_iff, if◌then◌else◌, int_eq,
}
use halo_keyboard.System.{Os, Syscall}
use halo_keyboard.Haptics.Driver.{play_effect}
use halo_keyboard.Haptics.Manager.{
  TouchFfManager, TouchKeyboardEvent, finger_down, event_triggered, play_effect_of_event,
}
use halo_keyboard.Multitouch.StateMachine.{MtFinger}
use halo_keyboard.Keyboard.Time.{Timespec}
use halo_keyboard.Keyboard.Queue.{erase_events}
use halo_keyboard.Keyboard.State.{
  Keyboard, FingerData, RejectionStatus, moved_off_key, old_tid, no_key,
}
use halo_keyboard.Keyboard.Fingers.{
  is_not_rejected, key_at, arrive, reject_finger, generate_event_for_arriving_finger,
  enqueue_key_up_event, set_fn_if,
}
use halo_keyboard.Keyboard.Ordering.{IsSorted, enqueue-IsSorted, erase_events-IsSorted}
use halo_keyboard.Keyboard.Counts.{has_tid}
use halo_keyboard.Keyboard.Tracking.{Tracking}
use halo_keyboard.Keyboard.Touches.{
  stayed, strayed, strayed_down, stronger, stayed-Tracking, arrive-Tracking, reject_finger-Tracking,
  enqueue_key_up_event-Tracking,
}
use halo_keyboard.Keyboard.Balance.{
  Balanced, is_sent, add-Even, add_idle-Even, update-Even, reject-Even, reject_down-Even,
}

pub record IsSound (kb : Keyboard) : Type 0 where
  pub tracking : Tracking kb
  pub sorted : IsSorted kb.pending_events
  pub balanced : Balanced kb

-- Haptic feedback is no key event.
event_triggered-is_sent :
    (c : ℕ) (w : ℤ) (os : Os) (m : TouchFfManager) (ev : TouchKeyboardEvent) (x y : ℤ)
    (trace : List Syscall)
    → count_if (is_sent c w) (event_triggered os m ev x y trace) ≡ count_if (is_sent c w) trace
unfolding event_triggered play_effect_of_event play_effect
event_triggered-is_sent c w os m ev x y trace = ground arith

module _ (os : Os) (now : Timespec) (t : ℤ) (finger : MtFinger) (kb : Keyboard) where
  arrive-IsSorted : IsSorted kb.pending_events → IsSorted (arrive os now t finger kb).pending_events
  unfolding arrive generate_event_for_arriving_finger
  arrive-IsSorted s = elim (Option-cases (key_at 0 kb.layout finger.x finger.y)) [
    | inl e ↦ rw (e, arrive, generate_event_for_arriving_finger) s
    | inr ((m, key), e) ↦
        rw (e, arrive, generate_event_for_arriving_finger) (enqueue-IsSorted _ kb.pending_events s)
  ]

  arrive-Balanced :
      find t kb.finger_data ≡ none → Balanced kb → Balanced (arrive os now t finger kb)
  unfolding arrive generate_event_for_arriving_finger
  arrive-Balanced f b c = elim (Option-cases (key_at 0 kb.layout finger.x finger.y)) [
    | inl e ↦
        rw (e, arrive, generate_event_for_arriving_finger)
          (add_idle-Even c kb.finger_data kb.pending_events kb.trace (b c) t _ f (ground arith))
    | inr ((m, key), e) ↦
        rw (e, arrive, generate_event_for_arriving_finger)
          (add-Even c kb.finger_data kb.pending_events kb.trace (b c) t _ _ _ f (ground arith)
            (ground arith) (ground arith) (played (pos 1) m) (played (pos 0) m))
  ]
    where
      played :
          (w : ℤ) (m : ℕ)
          → count_if (is_sent c w) (
              if pos m ==ℤ no_key
              then kb.trace
              else event_triggered os kb.ff_manager finger_down finger.x finger.y kb.trace)
            ≡ count_if (is_sent c w) kb.trace
      played w m = ground (
        arith,
        event_triggered-is_sent c w os kb.ff_manager finger_down finger.x finger.y kb.trace,
      )

  pub arrive-IsSound :
      (t ==ℤ old_tid) ≡ false
      → find t kb.finger_data ≡ none
      → count_if (has_tid t) kb.pending_events ≡ 0
      → IsSound kb
      → IsSound (arrive os now t finger kb)
  arrive-IsSound n f z v = record {
    tracking = arrive-Tracking os now t finger kb v.tracking n f z;
    sorted = arrive-IsSorted v.sorted;
    balanced = arrive-Balanced f v.balanced;
  }

module _ (t : ℤ) (fd : FingerData) (kb : Keyboard) (v : IsSound kb)
    (f : find t kb.finger_data ≡ some fd) where
  pub reject_finger-IsSound :
      (now : Timespec) (reason : RejectionStatus)
      → is_not_rejected reason ≡ false
      → fd.down_sent ≡ false
      → IsSound (reject_finger t reason kb)
  unfolding reject_finger
  reject_finger-IsSound now reason r d = record {
    tracking = reject_finger-Tracking now t kb v.tracking reason r;
    sorted = rw (f, reject_finger) (erase_events-IsSorted t kb.pending_events v.sorted);
    balanced = λ c.
        rw (f, reject_finger)
          (reject-Even c kb.finger_data kb.pending_events kb.trace (v.balanced c) t fd _ f
            v.tracking.no_old v.tracking.events (ground arith) (ground arith));
  }

  reject_down-IsSound :
      (now : Timespec) (reason : RejectionStatus) (code : ℕ)
      → code ≡ fd.event_code
      → is_not_rejected reason ≡ false
      → is_not_rejected fd.rejection_status ≡ true
      → fd.down_sent ≡ true
      → IsSound (set_fn_if code false (enqueue_key_up_event code now (reject_finger t reason kb)))
  unfolding reject_finger enqueue_key_up_event
  reject_down-IsSound now reason code k r n d = record {
    tracking =
        enqueue_key_up_event-Tracking now t (reject_finger t reason kb)
          (reject_finger-Tracking now t kb v.tracking reason r) code;
    sorted =
        rw (f, reject_finger)
          (enqueue-IsSorted _ (erase_events t kb.pending_events)
            (erase_events-IsSorted t kb.pending_events v.sorted));
    balanced = λ c.
        rw (f, reject_finger)
          (reject_down-Even c kb.finger_data kb.pending_events kb.trace (v.balanced c) t fd _ _ f
            v.tracking.no_old v.tracking.events (ground arith) (ground arith) (ground arith));
  }

module _ (now : Timespec) (t : ℤ) (finger : MtFinger) (fd : FingerData) (kb : Keyboard)
    (v : IsSound kb) (f : find t kb.finger_data ≡ some fd)
    (r : is_not_rejected fd.rejection_status ≡ true) where
  pub stayed-IsSound : IsSound (stayed now t finger fd kb)
  stayed-IsSound = record {
    tracking = stayed-Tracking now t finger fd kb v.tracking f;
    sorted = v.sorted;
    balanced =
        λ c. update-Even c kb.finger_data kb.pending_events kb.trace (v.balanced c) t fd _ f refl;
  }

  find-stayed : find t (stayed now t finger fd kb).finger_data ≡ some (stronger now t finger fd kb)
  find-stayed =
      ground (arith, find-insert t t (stronger now t finger fd kb) kb.finger_data, ==ℤ_iff t t)

  pub strayed-IsSound : fd.down_sent ≡ false → IsSound (strayed now t finger fd kb)
  strayed-IsSound d =
      reject_finger-IsSound t (stronger now t finger fd kb) (stayed now t finger fd kb)
        stayed-IsSound find-stayed now moved_off_key refl d

  pub strayed_down-IsSound : fd.down_sent ≡ true → IsSound (strayed_down now t finger fd kb)
  strayed_down-IsSound d =
      reject_down-IsSound t (stronger now t finger fd kb) (stayed now t finger fd kb) stayed-IsSound
        find-stayed now moved_off_key fd.event_code refl refl r d

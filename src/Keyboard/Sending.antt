-- ===== src/Keyboard/Sending.antt =====
-- What arriving, moving and leaving fingers do to the codes that FakeKeyboard can send.
use halo_keyboard.Prelude.{
  ℕ, ℤ, ◌≡◌, refl, Bool, true, false, List, [], ◌∷◌, Option-cases, Bool-cases, inl, inr, Map, find,
  AllValues, AllValues-find, AllValues-insert, All, arith, ◌==ℤ◌, if◌then◌else◌, int_eq,
}
use halo_keyboard.System.{Os, Syscall, Result, ok, err, Gives, gives, throws, Gives-bind}
use halo_keyboard.Haptics.Driver.{play_effect}
use halo_keyboard.Haptics.Manager.{
  TouchFfManager, finger_down, event_triggered, play_effect_of_event,
}
use halo_keyboard.Multitouch.StateMachine.{MtFinger, Snapshot}
use halo_keyboard.Keyboard.Time.{Timespec}
use halo_keyboard.Keyboard.State.{Keyboard, FingerData, moved_off_key, old_tid}
use halo_keyboard.Keyboard.Fingers.{
  is_not_rejected, key_at, code_of_key, arrive, move, leave, leave_all, process_finger,
  process_fingers, process_incoming_snapshot, generate_event_for_arriving_finger, release_key,
  still_on_first_key,
}
use halo_keyboard.Keyboard.Touches.{stayed, stronger}
use halo_keyboard.Keyboard.Coded.{
  IsAllowed, IsHonest, IsFingerAllowed, IsCoded, key_at-IsKeyAllowed, enqueue-All, insert-IsCoded,
  erase-IsCoded, release_key-IsCoded, reject_finger-IsCoded, handle_leaving_finger-IsCoded,
}

pub any {ℓ} : {A : Type ℓ} (m : Result A) → Gives (λ a. Unit) m
any (ok a) = gives tt
any (err e) = throws

module _ (allowed : ℕ → Bool) where
  -- Haptic feedback is no key event.
  event_triggered-IsHonest :
      (os : Os) (m : TouchFfManager) (x y : ℤ) (trace : List Syscall)
      → All (IsHonest allowed) trace
      → All (IsHonest allowed) (event_triggered os m finger_down x y trace)
  unfolding event_triggered play_effect_of_event play_effect
  event_triggered-IsHonest os m x y trace h = ground (arith, h)

  arrive-IsCoded :
      (os : Os) (now : Timespec) (t : ℤ) (finger : MtFinger) (kb : Keyboard)
      → IsCoded allowed kb
      → IsCoded allowed (arrive os now t finger kb)
  unfolding arrive generate_event_for_arriving_finger
  arrive-IsCoded os now t finger kb v = elim (Option-cases (key_at 0 kb.layout finger.x finger.y)) [
    | inl e ↦
        rw (e, arrive, generate_event_for_arriving_finger)
          (record {
            keys = v.keys;
            events = v.events;
            fingers =
                AllValues-insert (IsFingerAllowed allowed) t _ kb.finger_data
                  (λ n. absurd (ground (arith, n))) v.fingers;
            calls = v.calls;
          })
    | inr ((m, key), e) ↦
        (let code = code_of_key kb.fn_key_pressed key in
          let a : IsAllowed allowed code =
            key_at-IsKeyAllowed allowed 0 kb.layout finger.x finger.y m key v.keys e
              kb.fn_key_pressed in
          rw (e, arrive, generate_event_for_arriving_finger)
            (record {
              keys = v.keys;
              events = enqueue-All allowed _ kb.pending_events a v.events;
              fingers =
                  AllValues-insert (IsFingerAllowed allowed) t _ kb.finger_data (λ n. a) v.fingers;
              calls = ground (
                arith,
                v.calls,
                event_triggered-IsHonest os kb.ff_manager finger.x finger.y kb.trace v.calls,
              );
            }))
  ]

  either :
      (b : Bool) (k k' : Keyboard)
      → IsCoded allowed k
      → IsCoded allowed k'
      → IsCoded allowed (if b then k else k')
  either true k k' v w = v
  either false k k' v w = w

  module _ (now : Timespec) (t : ℤ) where
    move-IsCoded :
        (finger : MtFinger) (fd : FingerData) (kb : Keyboard)
        → is_not_rejected fd.rejection_status ≡ true
        → IsFingerAllowed allowed fd
        → IsCoded allowed kb
        → Gives (IsCoded allowed) (move now t finger fd kb)
    unfolding move release_key
    move-IsCoded finger fd kb r a v =
        let u = stronger now t finger fd kb in
        let s = stayed now t finger fd kb in
        let sv = insert-IsCoded allowed kb v t u a in
        let rejected = reject_finger-IsCoded allowed t moved_off_key s refl sv in
        Gives-bind (any (still_on_first_key finger u s)) λ still _. gives (
          either still s _ sv (
            either fd.down_sent _ _ (release_key-IsCoded allowed fd.event_code now _ rejected (a r))
              rejected))

    leave-IsCoded :
        (snapshot : Snapshot) (fd : FingerData) (kb : Keyboard)
        → IsFingerAllowed allowed fd
        → IsCoded allowed kb
        → IsCoded allowed (leave now snapshot t fd kb)
    unfolding leave
    leave-IsCoded snapshot fd kb a v = elim (Option-cases (find t snapshot)) [
      | inr (finger, e) ↦ rw (e, leave) v
      | inl e ↦ elim (Bool-cases (t ==ℤ old_tid)) [
        | inl o ↦ rw (e, leave, o) v
        | inr o ↦
            rw (e, leave, o)
              (erase-IsCoded allowed _ (handle_leaving_finger-IsCoded allowed t fd now kb a v) t)
      ]
    ]

  process_fingers-IsCoded :
      (os : Os) (now : Timespec) (snapshot : Snapshot) (kb : Keyboard)
      → IsCoded allowed kb
      → Gives (IsCoded allowed) (process_fingers os now snapshot kb)
  unfolding process_fingers process_finger
  process_fingers-IsCoded os now [] kb v = gives v
  process_fingers-IsCoded os now ((t, finger) ∷ rest) kb v =
      Gives-bind (one t finger) λ kb' w. process_fingers-IsCoded os now rest kb' w
    where
      one :
          (t : ℤ) (finger : MtFinger) → Gives (IsCoded allowed) (process_finger os now t finger kb)
      one t finger = elim (Option-cases (find t kb.finger_data)) [
        | inl e ↦ rw (e, process_finger) (gives (arrive-IsCoded os now t finger kb v))
        | inr (fd, e) ↦ elim (Bool-cases (is_not_rejected fd.rejection_status)) [
          | inl r ↦
              rw (e, r, process_finger)
                (move-IsCoded now t finger fd kb r
                  (AllValues-find (IsFingerAllowed allowed) t fd kb.finger_data v.fingers e) v)
          | inr r ↦ rw (e, r, process_finger) (gives v)
        ]
      ]

  leave_all-IsCoded :
      (now : Timespec) (snapshot : Snapshot) (entries : Map ℤ FingerData) (kb : Keyboard)
      → AllValues (IsFingerAllowed allowed) entries
      → IsCoded allowed kb
      → IsCoded allowed (leave_all now snapshot entries kb)
  unfolding leave_all
  leave_all-IsCoded now snapshot [] kb a v = v
  leave_all-IsCoded now snapshot ((t, fd) ∷ entries) kb a v =
      leave_all-IsCoded now snapshot entries _ a.1 (leave-IsCoded now t snapshot fd kb a.0 v)

  pub process_incoming_snapshot-IsCoded :
      (os : Os) (now : Timespec) (snapshot : Snapshot) (kb : Keyboard)
      → IsCoded allowed kb
      → Gives (IsCoded allowed) (process_incoming_snapshot os now snapshot kb)
  unfolding process_incoming_snapshot
  process_incoming_snapshot-IsCoded os now snapshot kb v =
      Gives-bind (process_fingers-IsCoded os now snapshot kb v)
        λ kb' w. gives (leave_all-IsCoded now snapshot kb'.finger_data kb' w.fingers w)

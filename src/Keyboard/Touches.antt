-- ===== src/Keyboard/Touches.antt =====
-- Arriving, moving and rejected fingers, one at a time: each step keeps the fingers and the pending
-- events in step.
use halo_keyboard.Prelude.{
  ℕ, ℤ, ◌≡◌, refl, true, false, none, some, Option-cases, Bool-cases, inl, inr, find, insert, arith,
  count_if, ◌==ℤ◌, max_ℤ, int_eq,
}
use halo_keyboard.System.{Os, ok}
use halo_keyboard.Multitouch.StateMachine.{MtFinger}
use halo_keyboard.Keyboard.Key.{contains}
use halo_keyboard.Keyboard.Time.{Timespec}
use halo_keyboard.Keyboard.State.{Keyboard, FingerData, RejectionStatus, moved_off_key, old_tid}
use halo_keyboard.Keyboard.Fingers.{
  is_not_rejected, layout_at, key_at, arrive, move, reject_finger, still_on_first_key,
  enqueue_key_up_event, set_fn_if, generate_event_for_arriving_finger,
}
use halo_keyboard.Keyboard.Counts.{has_tid}
use halo_keyboard.Keyboard.Tracking.{Tracking, is_key}
use halo_keyboard.Keyboard.Preservation.{
  key_at-is_key, add_idle, add_waiting, update, reject, enqueue_up,
}

module _ (os : Os) (now : Timespec) (t : ℤ) (finger : MtFinger) (kb : Keyboard)
    (v : Tracking kb) where
  pub arrive-Tracking :
      (t ==ℤ old_tid) ≡ false
      → find t kb.finger_data ≡ none
      → count_if (has_tid t) kb.pending_events ≡ 0
      → Tracking (arrive os now t finger kb)
  unfolding arrive generate_event_for_arriving_finger
  arrive-Tracking n f z = elim (Option-cases (key_at 0 kb.layout finger.x finger.y)) [
    | inl e ↦
        rw (e, arrive, generate_event_for_arriving_finger)
          (add_idle kb.layout kb.finger_data kb.pending_events v t _ n f z refl)
    | inr ((m, key), e) ↦
        rw (e, arrive, generate_event_for_arriving_finger)
          (add_waiting kb.layout kb.finger_data kb.pending_events v t _ _ n f z (ground arith)
            (key_at-is_key kb.layout finger.x finger.y m key e) refl refl refl refl)
  ]

module _ (now : Timespec) (t : ℤ) (kb : Keyboard) (v : Tracking kb) where
  pub reject_finger-Tracking :
      (reason : RejectionStatus)
      → is_not_rejected reason ≡ false
      → Tracking (reject_finger t reason kb)
  unfolding reject_finger
  reject_finger-Tracking reason r = elim (Option-cases (find t kb.finger_data)) [
    | inl e ↦ rw (e, reject_finger) v
    | inr (fd, e) ↦
        rw (e, reject_finger) (reject kb.layout kb.finger_data kb.pending_events v t fd _ e r)
  ]

  pub enqueue_key_up_event-Tracking : (code : ℕ) → Tracking (enqueue_key_up_event code now kb)
  unfolding enqueue_key_up_event
  enqueue_key_up_event-Tracking code =
      enqueue_up kb.layout kb.finger_data kb.pending_events v _ refl refl refl

-- The three ways in which a finger that started on a key can go on: it stays on the key, or it is
-- rejected, and if its key is down, that is released.
module _ (now : Timespec) (t : ℤ) (finger : MtFinger) (fd : FingerData) (kb : Keyboard) where
  abbrev pub stronger : FingerData
  stronger = record fd {
    max_pressure = max_ℤ fd.max_pressure finger.p;
    max_touch_major = max_ℤ fd.max_touch_major finger.touch_major;
  }

  abbrev pub stayed : Keyboard
  stayed = record kb { finger_data = insert t stronger kb.finger_data }

  abbrev pub strayed : Keyboard
  strayed = reject_finger t moved_off_key stayed

  abbrev pub strayed_down : Keyboard
  strayed_down = set_fn_if fd.event_code false (enqueue_key_up_event fd.event_code now strayed)

  pub move_rule {ℓ} :
      (P : Keyboard → Type ℓ)
      → is_key kb.layout fd.starting_key_number ≡ true
      → P stayed
      → (fd.down_sent ≡ false → P strayed)
      → (fd.down_sent ≡ true → P strayed_down)
      → (kb' : Keyboard) × (move now t finger fd kb ≡ ok kb') × P kb'
  unfolding move still_on_first_key layout_at
  move_rule P k p1 p2 p3 = elim (Option-cases (layout_at kb.layout fd.starting_key_number)) [
    | inl e ↦ absurd (ground (arith, e))
    | inr (key, e) ↦ elim (Bool-cases (contains key finger.x finger.y)) [
      | inl c ↦ (stayed, ground (arith, e, c), p1)
      | inr c ↦ elim (Bool-cases fd.down_sent) [
        | inl s ↦ (strayed_down, ground (arith, e, c, s), p3 s)
        | inr s ↦ (strayed, ground (arith, e, c, s), p2 s)
      ]
    ]
  ]

  pub stayed-Tracking : Tracking kb → find t kb.finger_data ≡ some fd → Tracking stayed
  stayed-Tracking v f =
      update kb.layout kb.finger_data kb.pending_events v t fd stronger f refl refl refl refl

  pub strayed-Tracking : Tracking kb → find t kb.finger_data ≡ some fd → Tracking strayed
  strayed-Tracking v f =
      reject_finger-Tracking now t stayed (stayed-Tracking v f) moved_off_key refl

  pub strayed_down-Tracking : Tracking kb → find t kb.finger_data ≡ some fd → Tracking strayed_down
  strayed_down-Tracking v f =
      enqueue_key_up_event-Tracking now t strayed (strayed-Tracking v f) fd.event_code

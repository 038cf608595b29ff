-- ===== src/Keyboard/Departures.antt =====
-- HandleLeavingFinger and the second loop of ProcessIncomingSnapshot, one finger at a time.
use halo_keyboard.Prelude.{
  ℤ, ◌≡◌, refl, true, false, Option, none, some, Option-cases, Bool-cases, inl, inr, find,
  find-erase, erase, arith, ◌==ℤ◌, ==ℤ_iff, if◌then◌else◌, int_eq,
}
use halo_keyboard.Multitouch.StateMachine.{MtFinger, Snapshot}
use halo_keyboard.Keyboard.Time.{Timespec}
use halo_keyboard.Keyboard.Queue.{guarantee, found_up}
use halo_keyboard.Keyboard.State.{Keyboard, FingerData, old_tid}
use halo_keyboard.Keyboard.Fingers.{
  is_not_rejected, release_key, handle_leaving_finger, leave, enqueue_key_up_event,
}
use halo_keyboard.Keyboard.Ordering.{enqueue-IsSorted, guarantee-IsSorted}
use halo_keyboard.Keyboard.Tracking.{is_waiting, found_up-Tracked}
use halo_keyboard.Keyboard.Preservation.{forget_idle, forget_waiting, enqueue_up}
use halo_keyboard.Keyboard.Balance.{forget-Even, forget_down-Even, forget_waiting-Even}
use halo_keyboard.Keyboard.Soundness.{IsSound}

module _ (now : Timespec) (snapshot : Snapshot) (t : ℤ) (fd : FingerData) (kb : Keyboard) where
  abbrev forgotten : Keyboard → Keyboard
  forgotten k = record k { finger_data = erase t k.finger_data }

  abbrev marked : Keyboard
  marked = record kb { pending_events = guarantee t kb.pending_events }

  leave_rule {ℓ} :
      (P : Keyboard → Type ℓ)
      → (t ==ℤ old_tid) ≡ false
      → found_up t kb.pending_events ≡ false
      → ((finger : MtFinger) → find t snapshot ≡ some finger → P kb)
      → (find t snapshot ≡ none → is_not_rejected fd.rejection_status ≡ false → P (forgotten kb))
      → (find t snapshot ≡ none
          → is_not_rejected fd.rejection_status ≡ true
          → fd.down_sent ≡ true
          → P (forgotten (release_key fd.event_code now kb)))
      → (find t snapshot ≡ none
          → is_waiting fd ≡ true
          → P (forgotten (release_key fd.event_code now marked)))
      → P (leave now snapshot t fd kb)
  unfolding leave handle_leaving_finger
  leave_rule P o u p1 p2 p3 p4 = elim (Option-cases (find t snapshot)) [
    | inr (finger, e) ↦ rw (e, leave) (p1 finger e)
    | inl e ↦ elim (Bool-cases (is_not_rejected fd.rejection_status)) [
      | inr r ↦ rw (e, leave, o, r, handle_leaving_finger) (p2 e r)
      | inl r ↦ elim (Bool-cases fd.down_sent) [
        | inl d ↦ rw (e, leave, o, r, d, handle_leaving_finger) (p3 e r d)
        | inr d ↦ rw (e, leave, o, r, d, u, handle_leaving_finger) (p4 e (ground arith))
      ]
    ]
  ]

module _ (now : Timespec) (snapshot : Snapshot) (t : ℤ) (fd : FingerData) (kb : Keyboard)
    (v : IsSound kb) (f : find t kb.finger_data ≡ some fd) where
  pub not_old : (t ==ℤ old_tid) ≡ false
  not_old = ground (arith, f, v.tracking.no_old, ==ℤ_iff t old_tid)

  pub no_up : found_up t kb.pending_events ≡ false
  no_up =
      found_up-Tracked t fd kb.finger_data kb.pending_events f v.tracking.no_old v.tracking.events

  forgotten_idle-IsSound :
      is_not_rejected fd.rejection_status ≡ false → IsSound (forgotten now snapshot t fd kb kb)
  forgotten_idle-IsSound r = record {
    tracking =
        forget_idle kb.layout kb.finger_data kb.pending_events v.tracking t fd f (ground arith);
    sorted = v.sorted;
    balanced = λ c.
        forget-Even c kb.finger_data kb.pending_events kb.trace (v.balanced c) t fd f
          (ground arith);
  }

  forgotten_down-IsSound :
      is_not_rejected fd.rejection_status ≡ true
      → fd.down_sent ≡ true
      → IsSound (forgotten now snapshot t fd kb (release_key fd.event_code now kb))
  unfolding release_key enqueue_key_up_event
  forgotten_down-IsSound r d = record {
    tracking =
        enqueue_up kb.layout (erase t kb.finger_data) kb.pending_events
          (forget_idle kb.layout kb.finger_data kb.pending_events v.tracking t fd f (ground arith))
          _ refl refl refl;
    sorted = enqueue-IsSorted _ kb.pending_events v.sorted;
    balanced = λ c.
        forget_down-Even c kb.finger_data kb.pending_events kb.trace (v.balanced c) t fd _ f
          (ground arith) (ground arith);
  }

  forgotten_waiting-IsSound :
      is_waiting fd ≡ true
      → IsSound (
          forgotten now snapshot t fd kb
            (release_key fd.event_code now (marked now snapshot t fd kb)))
  unfolding release_key enqueue_key_up_event
  forgotten_waiting-IsSound w = record {
    tracking =
        enqueue_up kb.layout (erase t kb.finger_data) (guarantee t kb.pending_events)
          (forget_waiting kb.layout kb.finger_data kb.pending_events v.tracking t fd f w) _ refl
          refl refl;
    sorted =
        enqueue-IsSorted _ (guarantee t kb.pending_events)
          (guarantee-IsSorted t kb.pending_events v.sorted);
    balanced = λ c.
        forget_waiting-Even c kb.finger_data kb.pending_events kb.trace (v.balanced c) t fd _ f
          v.tracking.no_old (ground (arith, v.tracking.fingers t fd f)) v.tracking.events
          (ground arith) (ground arith) (ground arith);
  }

  -- A finger that is not in the snapshot is forgotten, and the others are tracked as before.
  abbrev pub Left : Keyboard → Type 0
  Left kb' =
      IsSound kb'
      × ((s : ℤ)
          → find s kb'.finger_data ≡ (
              if t ==ℤ s
              then elim (find t snapshot) as (λ _. Option FingerData) [
                | none ↦ none
                | some _ ↦ some fd
              ]
              else find s kb.finger_data))

  pub leave-Left : Left (leave now snapshot t fd kb)
  unfolding release_key enqueue_key_up_event
  leave-Left =
      leave_rule now snapshot t fd kb Left not_old no_up
        (λ finger e. (v, λ s. ground (arith, e, f, ==ℤ_iff t s)))
        (λ e r. (forgotten_idle-IsSound r, gone e)) (λ e r d. (forgotten_down-IsSound r d, gone e))
        (λ e w. (forgotten_waiting-IsSound w, gone e))
    where
      gone :
          find t snapshot ≡ none
          → (s : ℤ)
          → find s (erase t kb.finger_data) ≡ (
              if t ==ℤ s
              then elim (find t snapshot) as (λ _. Option FingerData) [
                | none ↦ none
                | some _ ↦ some fd
              ]
              else find s kb.finger_data)
      gone e s = ground (arith, e, find-erase t s kb.finger_data v.tracking.distinct)

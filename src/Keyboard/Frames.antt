-- ===== src/Keyboard/Frames.antt =====
-- ProcessIncomingSnapshot, for a snapshot in any order of iteration: it does not throw, keeps the
-- FakeKeyboard sound, and tracks the fingers of the snapshot and no other.
use halo_keyboard.Prelude.{
  ℤ, ◌≡◌, refl, Bool, false, not, ◌&&◌, [], ◌∷◌, none, Option-cases, Bool-cases, inl, inr, Map,
  is_some, ◌||◌, Holds, Holds-self, ◌∙◌, Distinct, find, find-insert, insert, arith, All, ◌==ℤ◌,
  ==ℤ_iff, if◌then◌else◌, int_eq,
}
use halo_keyboard.System.{Os, ok}
use halo_keyboard.Multitouch.StateMachine.{MtFinger, Snapshot}
use halo_keyboard.Keyboard.Time.{Timespec}
use halo_keyboard.Keyboard.State.{Keyboard, FingerData, RejectionStatus, moved_off_key, old_tid}
use halo_keyboard.Keyboard.Fingers.{
  is_not_rejected, key_at, arrive, reject_finger, leave, generate_event_for_arriving_finger,
  enqueue_key_up_event, process_finger, process_fingers, leave_all, process_incoming_snapshot,
}
use halo_keyboard.Keyboard.Touches.{stayed, strayed, strayed_down, stronger, move_rule}
use halo_keyboard.Keyboard.Soundness.{
  IsSound, arrive-IsSound, stayed-IsSound, strayed-IsSound, strayed_down-IsSound,
}
use halo_keyboard.Keyboard.Departures.{leave-Left}
use halo_keyboard.Keyboard.Freshness.{
  IsFresh, IsReportable, arrive-IsFresh, stayed-IsFresh, strayed-IsFresh, strayed_down-IsFresh,
}

abbrev is_tracked : Keyboard → ℤ → Bool
is_tracked kb s = is_some (find s kb.finger_data)

-- What one finger of a snapshot leaves: a sound keyboard that tracks this finger too, and the other
-- fingers reportable as before.
abbrev Processed : ℤ → Keyboard → Keyboard → Type 0
Processed t kb kb' =
    IsSound kb'
    × ((s : ℤ) → is_tracked kb' s ≡ (t ==ℤ s || is_tracked kb s))
    × ((s : ℤ) → (s ==ℤ t) ≡ false → (s ==ℤ old_tid) ≡ false → IsFresh kb s → IsFresh kb' s)

arrive-is_tracked :
    (os : Os) (now : Timespec) (t : ℤ) (finger : MtFinger) (kb : Keyboard) (s : ℤ)
    → is_tracked (arrive os now t finger kb) s ≡ (t ==ℤ s || is_tracked kb s)
unfolding arrive generate_event_for_arriving_finger
arrive-is_tracked os now t finger kb s =
    elim (Option-cases (key_at 0 kb.layout finger.x finger.y)) [
      | inl e ↦ rw (e, arrive, generate_event_for_arriving_finger) (insert-is_some _)
      | inr ((m, key), e) ↦ rw (e, arrive, generate_event_for_arriving_finger) (insert-is_some _)
    ]
  where
    insert-is_some :
        (fd : FingerData)
        → is_some (find s (insert t fd kb.finger_data))
          ≡ (t ==ℤ s || is_some (find s kb.finger_data))
    insert-is_some fd = ground (arith, find-insert t s fd kb.finger_data)

module _ (now : Timespec) (t : ℤ) (finger : MtFinger) (fd : FingerData) (kb : Keyboard)
    (s : ℤ) where
  stayed-is_tracked : is_tracked (stayed now t finger fd kb) s ≡ (t ==ℤ s || is_tracked kb s)
  stayed-is_tracked = ground (arith, find-insert t s (stronger now t finger fd kb) kb.finger_data)

  reject_finger-is_tracked :
      (k : Keyboard) (reason : RejectionStatus)
      → is_tracked (reject_finger t reason k) s ≡ is_tracked k s
  unfolding reject_finger
  reject_finger-is_tracked k reason = elim (Option-cases (find t k.finger_data)) [
    | inl e ↦ rw (e, reject_finger) refl
    | inr (old, e) ↦
        rw (e, reject_finger)
          (ground (
            arith,
            e,
            find-insert t s (record old { rejection_status = reason }) k.finger_data,
            ==ℤ_iff t s,
          ))
  ]

  strayed-is_tracked : is_tracked (strayed now t finger fd kb) s ≡ (t ==ℤ s || is_tracked kb s)
  strayed-is_tracked = reject_finger-is_tracked _ moved_off_key ∙ stayed-is_tracked

  strayed_down-is_tracked :
      is_tracked (strayed_down now t finger fd kb) s ≡ (t ==ℤ s || is_tracked kb s)
  unfolding enqueue_key_up_event
  strayed_down-is_tracked = strayed-is_tracked

process_finger-Processed :
    (os : Os) (now : Timespec) (t : ℤ) (finger : MtFinger) (kb : Keyboard)
    → IsSound kb
    → IsReportable kb (t, finger)
    → (kb' : Keyboard) × (process_finger os now t finger kb ≡ ok kb') × Processed t kb kb'
unfolding process_finger
process_finger-Processed os now t finger kb v h = elim (Option-cases (find t kb.finger_data)) [
  | inl e ↦ (
    arrive os now t finger kb,
    ground (arith, e),
    (
      arrive-IsSound os now t finger kb h.0 e (h.1 e) v,
      arrive-is_tracked os now t finger kb,
      λ s d o k. arrive-IsFresh s t kb d k os now finger,
    ),
  )
  | inr (fd, e) ↦ elim (Bool-cases (is_not_rejected fd.rejection_status)) [
    | inl r ↦
        (let (kb', eq, p) =
            move_rule now t finger fd kb (Processed t kb) ((v.tracking.fingers t fd e).1 r)
              (
                stayed-IsSound now t finger fd kb v e r,
                stayed-is_tracked now t finger fd kb,
                λ s d o k. stayed-IsFresh s t kb d k now finger fd,
              )
              (λ ds. (
                strayed-IsSound now t finger fd kb v e r ds,
                strayed-is_tracked now t finger fd kb,
                λ s d o k. strayed-IsFresh s t kb d k now finger fd,
              ))
              (λ ds. (
                strayed_down-IsSound now t finger fd kb v e r ds,
                strayed_down-is_tracked now t finger fd kb,
                λ s d o k. strayed_down-IsFresh s t kb d k now finger fd o,
              )) in
          (kb', ground (arith, e, r, eq), p))
    | inr r ↦ (kb, ground (arith, e, r), (v, λ s. ground (arith, e, ==ℤ_iff t s), λ s d o k. k))
  ]
]

rest-IsReportable :
    (t : ℤ) (kb kb' : Keyboard) (snapshot : Snapshot)
    → find t snapshot ≡ none
    → Processed t kb kb'
    → All (IsReportable kb) snapshot
    → All (IsReportable kb') snapshot
unfolding find
rest-IsReportable t kb kb' [] n p h = tt
rest-IsReportable t kb kb' ((s, finger) ∷ rest) n p h =
    let d : (s ==ℤ t) ≡ false = ground (arith, n) in
    ((h.0.0, p.2 s d h.0.0 h.0.1), rest-IsReportable t kb kb' rest (ground (arith, n)) p h.1)

process_fingers-IsSound :
    (os : Os) (now : Timespec) (snapshot : Snapshot) (kb : Keyboard)
    → Distinct snapshot
    → All (IsReportable kb) snapshot
    → IsSound kb
    → (kb' : Keyboard) × (process_fingers os now snapshot kb ≡ ok kb')
      × IsSound kb'
      × ((s : ℤ) → is_tracked kb' s ≡ (is_some (find s snapshot) || is_tracked kb s))
unfolding process_fingers find
process_fingers-IsSound os now [] kb d h v = (kb, refl, v, λ s. refl)
process_fingers-IsSound os now ((t, finger) ∷ rest) kb d h v =
    let (kb1, e1, p) = process_finger-Processed os now t finger kb v h.0 in
    let (kb2, e2, v2, t2) =
      process_fingers-IsSound os now rest kb1 d.1 (rest-IsReportable t kb kb1 rest d.0 p h.1) p.0 in
    (kb2, ground (arith, e1, e2), v2, λ s. ground (arith, t2 s, p.1 s))

rest-Holds :
    (t : ℤ) (fd : FingerData) (fds fds' : Map ℤ FingerData) (entries : Map ℤ FingerData)
    → find t entries ≡ none
    → ((s : ℤ) → (t ==ℤ s) ≡ false → find s fds' ≡ find s fds)
    → Holds fds entries
    → Holds fds' entries
unfolding find
rest-Holds t fd fds fds' [] n g h = tt
rest-Holds t fd fds fds' ((s, sd) ∷ entries) n g h = (
  ground (arith, n, g s, h.0, ==ℤ_iff s t, ==ℤ_iff t s),
  rest-Holds t fd fds fds' entries (ground (arith, n)) g h.1,
)

leave_all-IsSound :
    (now : Timespec) (snapshot : Snapshot) (entries : Map ℤ FingerData) (kb : Keyboard)
    → Distinct entries
    → Holds kb.finger_data entries
    → IsSound kb
    → IsSound (leave_all now snapshot entries kb)
      × ((s : ℤ)
          → is_tracked (leave_all now snapshot entries kb) s ≡ (
              if is_some (find s entries) && not (is_some (find s snapshot))
              then false
              else is_tracked kb s))
unfolding leave_all find
leave_all-IsSound now snapshot [] kb d h v = (v, λ s. refl)
leave_all-IsSound now snapshot ((t, fd) ∷ entries) kb d h v =
    let l = leave-Left now snapshot t fd kb v h.0 in
    let kb1 = leave now snapshot t fd kb in
    let r =
      leave_all-IsSound now snapshot entries kb1 d.1
        (rest-Holds t fd kb.finger_data kb1.finger_data entries d.0
          (λ s n. ground (arith, l.1 s, n)) h.1)
        l.0 in
    (r.0, λ s. ground (arith, r.1 s, l.1 s, h.0, d.0, ==ℤ_iff t s))

-- For a snapshot of reportable fingers in any order of iteration, a sound FakeKeyboard comes out of
-- ProcessIncomingSnapshot without an exception and sound, and it then tracks exactly the fingers of
-- the snapshot.
pub process_incoming_snapshot-IsSound :
    (os : Os) (now : Timespec) (snapshot : Snapshot) (kb : Keyboard)
    → Distinct snapshot
    → All (IsReportable kb) snapshot
    → IsSound kb
    → (kb' : Keyboard) × (process_incoming_snapshot os now snapshot kb ≡ ok kb')
      × IsSound kb'
      × ((s : ℤ) → is_some (find s kb'.finger_data) ≡ is_some (find s snapshot))
unfolding process_incoming_snapshot
process_incoming_snapshot-IsSound os now snapshot kb d h v =
    let (kb1, e1, v1, t1) = process_fingers-IsSound os now snapshot kb d h v in
    let r =
      leave_all-IsSound now snapshot kb1.finger_data kb1 v1.tracking.distinct
        (Holds-self kb1.finger_data v1.tracking.distinct) v1 in
    (
      leave_all now snapshot kb1.finger_data kb1,
      ground (arith, e1),
      r.0,
      λ s. ground (arith, r.1 s, t1 s),
    )

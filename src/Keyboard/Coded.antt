-- ===== src/Keyboard/Coded.antt =====
-- Every code that is pending, or that a finger can still cause, is one of some set: the operations
-- on fingers and events keep it so if the codes of the layout are in the set.
use halo_keyboard.Prelude.{
  ℕ, ℤ, ◌%◌, ◌^◌, ◌≡◌, suc, sym, Bool, true, false, List, [], ◌∷◌, some, Option-cases, Bool-cases,
  inl, inr, find, insert, erase, AllValues, AllValues-insert, AllValues-erase, All, arith, ◌==ℤ◌,
  ◌==◌, if◌then◌else◌, int_eq,
}
use halo_keyboard.Input.{ev_key}
use halo_keyboard.System.{
  Syscall, open_file, close_file, write_event, ioctl, select_file, read_event,
}
use halo_keyboard.Keyboard.Key.{Key, contains}
use halo_keyboard.Keyboard.Time.{Timespec, timespec_is_later}
use halo_keyboard.Keyboard.Queue.{Event, enqueue, erase_events, guarantee, found_up}
use halo_keyboard.Keyboard.State.{Keyboard, FingerData, RejectionStatus}
use halo_keyboard.Keyboard.Fingers.{
  is_not_rejected, key_at, code_of_key, reject_finger, release_key, handle_leaving_finger,
  enqueue_key_up_event, set_fn_if,
}

module _ (allowed : ℕ → Bool) where
  -- The code as it is written into the 16 bits of an event.
  abbrev pub IsAllowed : ℕ → Type 0
  IsAllowed code = allowed (code % 2 ^ 16) ≡ true

  abbrev sends_allowed : Syscall → Bool
  sends_allowed (open_file path) = true
  sends_allowed (close_file fd) = true
  sends_allowed (ioctl fd request) = true
  sends_allowed (select_file nfds sec usec) = true
  sends_allowed (read_event fd) = true
  sends_allowed (write_event fd ev) = if ev.type == ev_key then allowed ev.code else true

  -- A call that writes no key event with another code.
  abbrev pub IsHonest : Syscall → Type 0
  IsHonest call = sends_allowed call ≡ true

  abbrev pub IsKeyAllowed : Key → Type 0
  IsKeyAllowed key = (fn : Bool) → IsAllowed (code_of_key fn key)

  abbrev pub IsEventAllowed : Event → Type 0
  IsEventAllowed e = IsAllowed e.ev_code

  abbrev pub IsFingerAllowed : FingerData → Type 0
  IsFingerAllowed fd = is_not_rejected fd.rejection_status ≡ true → IsAllowed fd.event_code

  pub record IsCoded (kb : Keyboard) : Type 0 where
    pub keys : All IsKeyAllowed kb.layout
    pub events : All IsEventAllowed kb.pending_events
    pub fingers : AllValues IsFingerAllowed kb.finger_data
    pub calls : All IsHonest kb.trace

  pub enqueue-All :
      (ev : Event) (q : List Event)
      → IsEventAllowed ev
      → All IsEventAllowed q
      → All IsEventAllowed (enqueue ev q)
  unfolding enqueue
  enqueue-All ev [] p h = (p, tt)
  enqueue-All ev (it ∷ q) p h = elim (Bool-cases (timespec_is_later it.deadline ev.deadline)) [
    | inl l ↦ rw (l, enqueue) (p, h)
    | inr l ↦ rw (l, enqueue) (h.0, enqueue-All ev q p h.1)
  ]

  erase_events-All :
      (t : ℤ) (q : List Event) → All IsEventAllowed q → All IsEventAllowed (erase_events t q)
  unfolding erase_events
  erase_events-All t [] h = tt
  erase_events-All t (it ∷ q) h = elim (Bool-cases (it.tid ==ℤ t)) [
    | inl l ↦ rw (l, erase_events) (erase_events-All t q h.1)
    | inr l ↦ rw (l, erase_events) (h.0, erase_events-All t q h.1)
  ]

  guarantee-All :
      (t : ℤ) (q : List Event) → All IsEventAllowed q → All IsEventAllowed (guarantee t q)
  unfolding guarantee
  guarantee-All t [] h = tt
  guarantee-All t (it ∷ q) h = elim (Bool-cases (it.tid ==ℤ t)) [
    | inl l ↦ rw (l, guarantee) h
    | inr l ↦ rw (l, guarantee) (h.0, guarantee-All t q h.1)
  ]

  pub key_at-IsKeyAllowed :
      (n : ℕ) (keys : List Key) (x y : ℤ) (m : ℕ) (key : Key)
      → All IsKeyAllowed keys
      → key_at n keys x y ≡ some (m, key)
      → IsKeyAllowed key
  unfolding key_at
  key_at-IsKeyAllowed n [] x y m key h e = absurd (cc e)
  key_at-IsKeyAllowed n (k ∷ keys) x y m key h e = elim (Bool-cases (contains k x y)) [
    | inl c ↦ (let q : k ≡ key = ground (arith, c, e) in rw (sym q) h.0)
    | inr c ↦ key_at-IsKeyAllowed (suc n) keys x y m key h.1 (ground (arith, c, e))
  ]

  module _ (kb : Keyboard) (v : IsCoded kb) where
    pub enqueue-IsCoded :
        (ev : Event)
        → IsEventAllowed ev
        → IsCoded (record kb { pending_events = enqueue ev kb.pending_events })
    enqueue-IsCoded ev p = record {
      keys = v.keys;
      events = enqueue-All ev kb.pending_events p v.events;
      fingers = v.fingers;
      calls = v.calls;
    }

    pub guarantee-IsCoded :
        (t : ℤ) → IsCoded (record kb { pending_events = guarantee t kb.pending_events })
    guarantee-IsCoded t = record {
      keys = v.keys;
      events = guarantee-All t kb.pending_events v.events;
      fingers = v.fingers;
      calls = v.calls;
    }

    pub insert-IsCoded :
        (t : ℤ) (fd : FingerData)
        → IsFingerAllowed fd
        → IsCoded (record kb { finger_data = insert t fd kb.finger_data })
    insert-IsCoded t fd p = record {
      keys = v.keys;
      events = v.events;
      fingers = AllValues-insert IsFingerAllowed t fd kb.finger_data p v.fingers;
      calls = v.calls;
    }

    pub erase-IsCoded : (t : ℤ) → IsCoded (record kb { finger_data = erase t kb.finger_data })
    erase-IsCoded t = record {
      keys = v.keys;
      events = v.events;
      fingers = AllValues-erase IsFingerAllowed t kb.finger_data v.fingers;
      calls = v.calls;
    }

    pub set_fn_if-IsCoded : (code : ℕ) (b : Bool) → IsCoded (set_fn_if code b kb)
    set_fn_if-IsCoded code b = record {
      keys = v.keys;
      events = v.events;
      fingers = v.fingers;
      calls = v.calls;
    }

  pub release_key-IsCoded :
      (code : ℕ) (now : Timespec) (kb : Keyboard)
      → IsCoded kb
      → IsAllowed code
      → IsCoded (release_key code now kb)
  unfolding release_key enqueue_key_up_event
  release_key-IsCoded code now kb v p = set_fn_if-IsCoded _ (enqueue-IsCoded kb v _ p) code false

  pub reject_finger-IsCoded :
      (t : ℤ) (reason : RejectionStatus) (kb : Keyboard)
      → is_not_rejected reason ≡ false
      → IsCoded kb
      → IsCoded (reject_finger t reason kb)
  unfolding reject_finger
  reject_finger-IsCoded t reason kb r v = elim (Option-cases (find t kb.finger_data)) [
    | inl e ↦ rw (e, reject_finger) v
    | inr (fd, e) ↦
        rw (e, reject_finger)
          (record {
            keys = v.keys;
            events = erase_events-All t kb.pending_events v.events;
            fingers =
                AllValues-insert IsFingerAllowed t _ kb.finger_data
                  (λ n. absurd (ground (arith, n, r))) v.fingers;
            calls = v.calls;
          })
  ]

  pub handle_leaving_finger-IsCoded :
      (t : ℤ) (fd : FingerData) (now : Timespec) (kb : Keyboard)
      → IsFingerAllowed fd
      → IsCoded kb
      → IsCoded (handle_leaving_finger t fd now kb)
  unfolding handle_leaving_finger
  handle_leaving_finger-IsCoded t fd now kb p v =
      elim (Bool-cases (is_not_rejected fd.rejection_status)) [
        | inr r ↦ rw (r, handle_leaving_finger) v
        | inl r ↦ elim (Bool-cases fd.down_sent) [
          | inl d ↦
              rw (r, d, handle_leaving_finger) (release_key-IsCoded fd.event_code now kb v (p r))
          | inr d ↦ elim (Bool-cases (found_up t kb.pending_events)) [
            | inl u ↦ rw (r, d, u, handle_leaving_finger) (guarantee-IsCoded kb v t)
            | inr u ↦
                rw (r, d, u, handle_leaving_finger)
                  (release_key-IsCoded fd.event_code now _ (guarantee-IsCoded kb v t) (p r))
          ]
        ]
      ]

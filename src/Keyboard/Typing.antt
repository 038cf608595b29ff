-- ===== src/Keyboard/Typing.antt =====
-- FakeKeyboard writes no key code but those of its layout, which EnableKeyboardEvents has enabled.
use halo_keyboard.Prelude.{
  ℕ, pos, ◌≡◌, refl, Bool, true, false, List, [], ◌∷◌, Option, none, some, Option-cases, Bool-cases,
  inl, inr, negsuc, ◌==ℤ◌, find, AllValues-find, zero, suc, length, if◌then◌else◌, int_eq, ℤ, All,
}
use halo_keyboard.Input.{InputEvent, ev_key, ev_syn, syn_report}
use halo_keyboard.System.{Os, Result, ok, Gives, gives, Gives-bind, Gives-ok, ◌>>=◌, Syscall}
use halo_keyboard.Uinput.Writes.{send_event-Ends, Ends-Gives}
use halo_keyboard.Multitouch.StateMachine.{add_event}
use halo_keyboard.Keyboard.Key.{Key}
use halo_keyboard.Keyboard.Time.{Timespec, timespec_is_later}
use halo_keyboard.Keyboard.Queue.{Event}
use halo_keyboard.Keyboard.State.{Keyboard, FingerData, RejectionStatus, pressure, touch_diameter}
use halo_keyboard.Keyboard.Fingers.{is_not_rejected, reject_finger}
use halo_keyboard.Keyboard.Consume.{
  tap_rejection, mark_down_sent, send_key, fire_event, fire_pending, flush, round,
}
use halo_keyboard.Keyboard.Coded.{
  IsEventAllowed, IsFingerAllowed, IsCoded, insert-IsCoded, reject_finger-IsCoded, IsHonest,
}
use halo_keyboard.Keyboard.Sending.{any, process_incoming_snapshot-IsCoded}
use halo_keyboard.Evdev.Polling.{IsPoll, read, waited, waited_and_read}
use halo_keyboard.Keyboard.Loop.{consume_once, Loop, enter, again}
use halo_keyboard.Keyboard.Progress.{poll-Gives}

abbrev IsReason : Option RejectionStatus → Type 0
IsReason none = Unit
IsReason (some reason) = is_not_rejected reason ≡ false

tap_rejection-IsReason :
    (layout : List Key) (fd : FingerData) → Gives IsReason (tap_rejection layout fd)
unfolding tap_rejection
tap_rejection-IsReason layout fd = elim (Bool-cases (fd.max_pressure ==ℤ negsuc 0)) [
  | inl e ↦
      rw (e, tap_rejection)
        (Gives-bind (any _) λ outside _. gives (reason outside touch_diameter refl))
  | inr e ↦
      rw (e, tap_rejection) (Gives-bind (any _) λ outside _. gives (reason outside pressure refl))
]
  where
    reason :
        (b : Bool) (r : RejectionStatus)
        → is_not_rejected r ≡ false
        → IsReason (if b then some r else none)
    reason true r h = h
    reason false r h = tt

module _ (allowed : ℕ → Bool) (os : Os) where
  mark_down_sent-IsCoded :
      (ev : Event) (kb : Keyboard) → IsCoded allowed kb → IsCoded allowed (mark_down_sent ev kb)
  mark_down_sent-IsCoded ev kb v = elim (Bool-cases ev.is_down) [
    | inr d ↦ rw d v
    | inl d ↦ elim (Option-cases (find ev.tid kb.finger_data)) [
      | inl e ↦ rw (d, e) v
      | inr (fd, e) ↦
          rw (d, e)
            (insert-IsCoded allowed kb v ev.tid _
              (AllValues-find (IsFingerAllowed allowed) ev.tid fd kb.finger_data v.fingers e))
    ]
  ]

  send_key-IsCoded :
      (ev : Event) (kb : Keyboard)
      → IsEventAllowed allowed ev
      → IsCoded allowed kb
      → Gives (IsCoded allowed) (send_key os ev kb)
  unfolding send_key
  send_key-IsCoded ev kb a v =
      Gives-bind (Ends-Gives (send_event-Ends os kb.fd kb.trace ev_key ev.ev_code _)) λ trace e.
        gives (
          mark_down_sent-IsCoded ev (record kb { trace = trace })
            (record {
              keys = v.keys;
              events = v.events;
              fingers = v.fingers;
              calls = rw e (a, v.calls);
            }))

  fire_event-IsCoded :
      (ev : Event) (kb : Keyboard) (b : Bool)
      → IsEventAllowed allowed ev
      → IsCoded allowed kb
      → Gives (λ r. IsCoded allowed r.0) (fire_event os ev kb b)
  unfolding fire_event
  fire_event-IsCoded ev kb b a v = elim (Option-cases (find ev.tid kb.finger_data)) [
    | inl e ↦ rw (e, fire_event) (Gives-bind (send_key-IsCoded ev kb a v) λ k w. gives w)
    | inr (fd, e) ↦
        rw (e, fire_event) (Gives-bind (tap_rejection-IsReason kb.layout fd) λ o r. tested o r)
  ]
    where
      tested :
          (o : Option RejectionStatus)
          → IsReason o
          → Gives
              (λ r. IsCoded allowed r.0)
              (elim o as (λ _. Result (Keyboard × Bool)) [
                | none ↦ (do kb' ← send_key os ev kb; ok (kb', true))
                | some reason ↦ ok (reject_finger ev.tid reason kb, b)
              ])
      tested none r = Gives-bind (send_key-IsCoded ev kb a v) λ k w. gives w
      tested (some reason) r = gives (reject_finger-IsCoded allowed ev.tid reason kb r v)

  fire_pending-IsCoded :
      (fuel : ℕ) (now : Timespec) (q : List Event) (kb : Keyboard) (b : Bool)
      → IsCoded allowed (record kb { pending_events = q })
      → Gives
          (λ r. IsCoded allowed r.0)
          (fire_pending fuel os now (record kb { pending_events = q }) b)
  unfolding fire_pending
  fire_pending-IsCoded zero now q kb b v = gives v
  fire_pending-IsCoded (suc fuel) now [] kb b v = gives v
  fire_pending-IsCoded (suc fuel) now (e ∷ q) kb b v =
      elim (Bool-cases (timespec_is_later e.deadline now)) [
        | inl l ↦ rw (l, fire_pending) (gives v)
        | inr l ↦
            rw (l, fire_pending)
              (Gives-bind
                (fire_event-IsCoded e (record kb { pending_events = q }) b v.events.0
                  (record {
                    keys = v.keys;
                    events = v.events.1;
                    fingers = v.fingers;
                    calls = v.calls;
                  }))
                λ r p. fire_pending-IsCoded fuel now r.0.pending_events r.0 r.1 p)
      ]

  flush-IsCoded :
      (now : Timespec) (kb : Keyboard)
      → IsCoded allowed kb
      → Gives (IsCoded allowed) (flush os now kb)
  unfolding flush
  flush-IsCoded now kb v =
      Gives-bind (fire_pending-IsCoded (length kb.pending_events) now kb.pending_events kb false v)
        λ fired p. elim (Bool-cases fired.1) [
          | inl e ↦ rw e (
              Gives-bind
                (Ends-Gives (send_event-Ends os fired.0.fd fired.0.trace ev_syn syn_report (pos 0)))
                λ trace w. gives (record {
                  keys = p.keys;
                  events = p.events;
                  fingers = p.fingers;
                  calls = rw w (refl, p.calls);
                }))
          | inr e ↦ rw e (gives p)
        ]

  round-IsCoded :
      (now : Timespec) (polled : Option InputEvent) (kb : Keyboard)
      → IsCoded allowed kb
      → Gives (IsCoded allowed) (round os now polled kb)
  unfolding round
  round-IsCoded now none kb v = flush-IsCoded now kb v
  round-IsCoded now (some ev) kb v =
      let kb1 : Keyboard = record kb { sm = (add_event kb.sm ev (some [])).machine } in
      let v1 : IsCoded allowed kb1 = record {
        keys = v.keys;
        events = v.events;
        fingers = v.fingers;
        calls = v.calls;
      } in
      elim (Bool-cases (add_event kb.sm ev (some [])).complete) [
        | inl e ↦ rw e (
            Gives-bind (process_incoming_snapshot-IsCoded allowed os now _ kb1 v1)
              λ k w. flush-IsCoded now k w)
        | inr e ↦ rw e (gives v1)
      ]

  polled-IsCoded :
      (kb : Keyboard) (trace : List Syscall)
      → IsPoll kb.trace trace
      → IsCoded allowed kb
      → IsCoded allowed (record kb { trace = trace })
  polled-IsCoded kb trace p v = record {
    keys = v.keys;
    events = v.events;
    fingers = v.fingers;
    calls = honest p;
  }
    where
      honest : {t : List Syscall} → IsPoll kb.trace t → All (IsHonest allowed) t
      honest (read fd) = (refl, v.calls)
      honest (waited n sec usec) = (refl, v.calls)
      honest (waited_and_read fd n sec usec) = (refl, (refl, v.calls))

  consume_once-IsCoded :
      (now later : Timespec) (source_fd : ℤ) (kb : Keyboard)
      → IsCoded allowed kb
      → Gives (IsCoded allowed) (consume_once os now later source_fd kb)
  unfolding consume_once
  consume_once-IsCoded now later source_fd kb v =
      Gives-bind (poll-Gives os now source_fd kb) λ polled p.
        round-IsCoded later polled.0 (record kb { trace = polled.1 })
          (polled-IsCoded kb polled.1 p v)

  pub Loop-IsCoded :
      {source_fd : ℤ} {kb k : Keyboard}
      → IsCoded allowed kb
      → Loop os source_fd kb k
      → IsCoded allowed k
  Loop-IsCoded v enter = v
  Loop-IsCoded {source_fd} v (again {k = k} l now later c e) =
      Gives-ok (consume_once-IsCoded now later source_fd k (Loop-IsCoded v l)) e

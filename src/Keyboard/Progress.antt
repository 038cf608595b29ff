-- ===== src/Keyboard/Progress.antt =====
-- The loop of FakeKeyboard::Consume: it is safe, and a timeout fires what it was set for.
use mathlib.Core.Path.{subst}
use halo_keyboard.Prelude.{
  sym, ap, ◌∙◌, ℕ, zero, suc, ℤ, pos, ◌+◌, ◌*◌, ◌≤◌, ◌<◌, ◌≡◌, Bool, false, List, [], ◌∷◌, Option,
  none, some, Bool-cases, inl, inr, length, arith, true,
}
use halo_keyboard.Input.{InputEvent}
use halo_keyboard.System.{
  Os, Syscall, ok, Safe, Safe-bind, Safe-map, Safe-ok, Gives, Gives-ok, throws, bind-ok, Result,
  err, result, ◌>>=◌,
}
use halo_keyboard.Uinput.Writes.{Ends, Ends-bind, Ends-map, Ends-Safe, done}
use halo_keyboard.Evdev.Polling.{
  IsPoll, read, waited, waited_and_read, get_next_event-Safe, get_next_event-Gives,
}
use halo_keyboard.Keyboard.Time.{Timespec, timespec_is_later, ns_per_ms}
use halo_keyboard.Keyboard.Queue.{Event}
use halo_keyboard.Keyboard.State.{Keyboard}
use halo_keyboard.Keyboard.Consume.{fire_pending, flush, round, timeout_ms}
use halo_keyboard.Keyboard.Deadlines.{
  total_ns, IsNormal, timespec_is_later_lem, timeout_ms_bounds, IsNear,
}
use halo_keyboard.Keyboard.Soundness.{IsSound}
use halo_keyboard.Keyboard.Rounds.{CanReport, fire_event-Ends, send_syn-Ends, round-Ends}
use halo_keyboard.Keyboard.Loop.{poll, consume_once, CanPoll, Loop, enter, again}
use halo_keyboard.Evdev.{get_next_event, is_in_set}

-- A poll is no key event.
polled-IsSound :
    (kb : Keyboard) (trace : List Syscall)
    → IsPoll kb.trace trace
    → IsSound kb
    → IsSound (record kb { trace = trace })
polled-IsSound kb trace (read fd) v = record {
  tracking = v.tracking;
  sorted = v.sorted;
  balanced = λ c. ground (arith, v.balanced c);
}
polled-IsSound kb trace (waited n sec usec) v = record {
  tracking = v.tracking;
  sorted = v.sorted;
  balanced = λ c. ground (arith, v.balanced c);
}
polled-IsSound kb trace (waited_and_read fd n sec usec) v = record {
  tracking = v.tracking;
  sorted = v.sorted;
  balanced = λ c. ground (arith, v.balanced c);
}

reportable :
    (kb : Keyboard) (o : Option InputEvent) (trace : List Syscall)
    → CanReport kb o
    → CanReport (record kb { trace = trace }) o
reportable kb none trace h = tt
reportable kb (some ev) trace h = h

-- A round after a poll.
polled-Safe :
    (os : Os) (later : Timespec) (kb : Keyboard) (polled : Option InputEvent) (trace : List Syscall)
    → CanReport kb polled
    → IsPoll kb.trace trace
    → IsSound kb
    → Safe IsSound (round os later polled (record kb { trace = trace }))
polled-Safe os later kb polled trace c p v =
    Safe-map
      (Ends-Safe (
        round-Ends os later polled (record kb { trace = trace }) (reportable kb polled trace c)
          (polled-IsSound kb trace p v)))
      λ kb' r. r.0

-- The deadline of the first pending event is normal and less than 23 days from the time.
abbrev pub IsTimely : Timespec → List Event → Type 0
IsTimely now [] = Unit
IsTimely now (front ∷ q) = IsNormal front.deadline × IsNear now front.deadline

timeout_ms-Safe :
    (now : Timespec) (q : List Event)
    → IsNormal now
    → IsTimely now q
    → Safe (λ t. Unit) (timeout_ms now q)
unfolding timeout_ms
timeout_ms-Safe now [] n h = result tt
timeout_ms-Safe now (front ∷ q) n h =
    let (t, e, _, _) = timeout_ms_bounds now front q n h.0 h.1 in
    subst (Safe (λ t. Unit)) (sym e) (result tt)

-- The body of the loop of Consume, on a sound FakeKeyboard and a frame that can be reported, with a
-- sensor whose descriptor fits in an fd_set and at a normal time that is less than 23 days from the
-- first deadline, which is normal too: whatever the system answers, it ends with a sound
-- FakeKeyboard or with an exception for a call of the system that failed, and never with an index
-- out of range, with a descriptor that FD_SET does not take or with the overflow of the timeout.
pub consume_once-Safe :
    (os : Os) (now later : Timespec) (source_fd : ℤ) (kb : Keyboard)
    → CanPoll os now source_fd kb
    → IsSound kb
    → is_in_set source_fd ≡ true
    → IsNormal now
    → IsTimely now kb.pending_events
    → Safe IsSound (consume_once os now later source_fd kb)
unfolding consume_once
consume_once-Safe os now later source_fd kb c v s n h =
    Safe-bind
      (Safe-bind (timeout_ms-Safe now kb.pending_events n h)
        λ timeout e u. get_next_event-Safe os source_fd timeout kb.trace (ground (arith, s)))
      λ polled e p. polled-Safe os later kb polled.0 polled.1 (c polled.0 polled.1 e) p v

-- The calls of a poll of the loop.
pub poll-Gives :
    (os : Os) (now : Timespec) (source_fd : ℤ) (kb : Keyboard)
    → Gives (λ r. IsPoll kb.trace r.1) (poll os now source_fd kb)
poll-Gives os now source_fd kb = go (timeout_ms now kb.pending_events)
  where
    go :
        (m : Result ℤ)
        → Gives
            (λ r. IsPoll kb.trace r.1)
            (m >>= λ timeout. get_next_event os source_fd timeout kb.trace)
    go (ok timeout) = get_next_event-Gives os source_fd timeout kb.trace
    go (err failure) = throws

consume_once-IsSound :
    (os : Os) (now later : Timespec) (source_fd : ℤ) (kb k : Keyboard)
    → CanPoll os now source_fd kb
    → IsSound kb
    → consume_once os now later source_fd kb ≡ ok k
    → IsSound k
unfolding consume_once
consume_once-IsSound os now later source_fd kb k c v e =
    let (polled, p, e1) = bind-ok (poll os now source_fd kb) _ k e in
    Safe-ok
      (polled-Safe os later kb polled.0 polled.1 (c polled.0 polled.1 p)
        (Gives-ok (poll-Gives os now source_fd kb) p) v)
      e1

-- Every state that the loop of Consume reaches from a sound one is sound, whatever the system
-- answers and the clock says, while the frames that it polls can be reported.
pub Loop-IsSound :
    {os : Os} {source_fd : ℤ} {kb k : Keyboard} → IsSound kb → Loop os source_fd kb k → IsSound k
Loop-IsSound v enter = v
Loop-IsSound {os} {source_fd} v (again {k = k} {k' = k'} l now later c e) =
    consume_once-IsSound os now later source_fd k k' c (Loop-IsSound v l) e

abbrev Shorter : ℕ → Keyboard → Type 0
Shorter n kb = length kb.pending_events ≤ n

fire_pending-Shorter :
    (fuel : ℕ) (os : Os) (now : Timespec) (q : List Event) (kb : Keyboard) (b : Bool)
    → IsSound (record kb { pending_events = q })
    → Ends os
        (λ r. IsSound r.0 × Shorter (length q) r.0)
        (fire_pending fuel os now (record kb { pending_events = q }) b)
unfolding fire_pending
fire_pending-Shorter zero os now q kb b v = done (v, omega arith)
fire_pending-Shorter (suc fuel) os now [] kb b v = done (v, omega arith)
fire_pending-Shorter (suc fuel) os now (e ∷ q) kb b v =
    elim (Bool-cases (timespec_is_later e.deadline now)) [
      | inl l ↦ rw (l, fire_pending) (done (v, omega arith))
      | inr l ↦
          rw (l, fire_pending)
            (Ends-bind (fire_event-Ends os e q kb b v) λ r p.
              Ends-map (fire_pending-Shorter fuel os now r.0.pending_events r.0 r.1 p.0)
                λ s w. (w.0, omega (arith, w.1, p.1)))
    ]

fire_due-Shorter :
    (fuel : ℕ) (os : Os) (now : Timespec) (e : Event) (q : List Event) (kb : Keyboard) (b : Bool)
    → timespec_is_later e.deadline now ≡ false
    → IsSound (record kb { pending_events = e ∷ q })
    → Ends os
        (λ r. IsSound r.0 × Shorter (length q) r.0)
        (fire_pending (suc fuel) os now (record kb { pending_events = e ∷ q }) b)
unfolding fire_pending
fire_due-Shorter fuel os now e q kb b l v =
    rw (l, fire_pending)
      (Ends-bind (fire_event-Ends os e q kb b v) λ r p.
        Ends-map (fire_pending-Shorter fuel os now r.0.pending_events r.0 r.1 p.0)
          λ s w. (w.0, omega (arith, w.1, p.1)))

-- An event that is due is off the queue after a round without a frame.
flush-Shorter :
    (os : Os) (now : Timespec) (e : Event) (q : List Event) (kb : Keyboard)
    → timespec_is_later e.deadline now ≡ false
    → IsSound (record kb { pending_events = e ∷ q })
    → Ends os
        (λ kb'. IsSound kb' × Shorter (length q) kb')
        (flush os now (record kb { pending_events = e ∷ q }))
unfolding flush
flush-Shorter os now e q kb l v =
    Ends-bind (fire_due-Shorter (length q) os now e q kb false l v) λ fired p.
      elim (Bool-cases fired.1) [
        | inl s ↦ rw s (Ends-bind (send_syn-Ends os fired.0 p.0) λ trace w. done (w, p.1))
        | inr s ↦ rw s (done p)
      ]

-- No timeout is in vain: when a poll of the loop of Consume times out on a sound FakeKeyboard and
-- the clock then shows that the timeout has passed, the round ends with at least one pending event
-- less, or with the exception of an incomplete write. The times are normal, and the first deadline
-- is less than 23 days from the time before the poll.
pub timeout_fires :
    (os : Os) (now later : Timespec) (source_fd : ℤ) (e : Event) (q : List Event) (kb : Keyboard)
    (trace : List Syscall)
    → kb.pending_events ≡ e ∷ q
    → IsSound kb
    → IsNormal now
    → IsNormal later
    → IsNormal e.deadline
    → IsNear now e.deadline
    → poll os now source_fd kb ≡ ok (none, trace)
    → ((n : ℕ)
        → timeout_ms now kb.pending_events ≡ ok (pos n)
        → total_ns now + n * ns_per_ms ≤ total_ns later)
    → Ends os
        (λ kb'. IsSound kb' × (length kb'.pending_events < length kb.pending_events))
        (consume_once os now later source_fd kb)
unfolding consume_once round
timeout_fires os now later source_fd e q kb trace eq v hn hl he near p w =
    let (n, t, due, _) = timeout_ms_bounds now e q hn he near in
    let passed = w n (ap (timeout_ms now) eq ∙ t) in
    let l : timespec_is_later e.deadline later ≡ false =
      ground (arith, timespec_is_later_lem e.deadline later he hl, due, passed) in
    let poll_is : IsPoll kb.trace trace = Gives-ok (poll-Gives os now source_fd kb) p in
    let k = polled-IsSound kb trace poll_is v in
    rw p (
      Ends-map
        (subst
          (λ q'.
            Ends os (λ kb'. IsSound kb' × Shorter (length q) kb')
              (flush os later (record kb { pending_events = q'; trace = trace })))
          (sym eq)
          (flush-Shorter os later e q (record kb { trace = trace }) l
            (subst (λ q'. IsSound (record kb { pending_events = q'; trace = trace })) eq k)))
        λ kb' r. (r.0, rw eq (omega (arith, r.1))))

-- ===== src/Evdev/Polling.antt =====
-- GetNextEvent: how long it waits and what it reads.
use mathlib.Core.Path.{subst}
use halo_keyboard.Prelude.{
  negsuc, refl, sym, true, Bool-cases, inl, inr, ltb_ℤ, ◌==ℤ◌, ℕ, ℤ, pos, ◌+◌, ◌*◌, ◌/◌, ◌%◌, ◌<◌,
  ◌≡◌, List, ◌∷◌, Option, is_some, arith, ◌+ℤ◌, none, some, ◌⊎◌, ◌≤ℤ◌, ◌<ℤ◌, ◌||◌, Bool,
}
use halo_keyboard.Input.{InputEvent}
use halo_keyboard.System.{
  Os, Syscall, select_file, read_event, ok, Safe, Safe-map, result, by_system, by_runtime, Filled,
  nothing, filled_bytes, filled_info, filled_event, filled_id, Gives, throws, Safe-Gives,
}
use halo_keyboard.Uinput.{sizeof_input_event}
use halo_keyboard.Evdev.{event_in, is_in_set, get_next_event, read_next}

-- The event that a reply carries; the caller's event is zero before the read.
abbrev pub carried : Filled → InputEvent
carried (filled_event ev) = ev
carried _ = record { type = 0; code = 0; value = pos 0 }

event_in-carried : (f : Filled) → event_in f ≡ carried f
event_in-carried nothing = refl
event_in-carried (filled_bytes bytes) = refl
event_in-carried (filled_info info) = refl
event_in-carried (filled_event ev) = refl
event_in-carried (filled_id id) = refl

-- When GetNextEvent with a timeout does not throw, it has waited once, for exactly that many
-- milliseconds in a normal timeval, on a descriptor that fits in an fd_set. If the select has
-- returned 0, it has read nothing and returns no event. Otherwise the select has returned a
-- positive number, and one read of a whole event was made, which is the event that is returned.
pub get_next_event_waits :
    (os : Os) (source_fd : ℤ) (timeout_ms : ℕ) (trace trace' : List Syscall)
    (polled : Option InputEvent)
    → get_next_event os source_fd (pos timeout_ms) trace ≡ ok (polled, trace')
    → (sec : ℕ) × (usec : ℕ) × (sec * 1_000_000 + usec ≡ timeout_ms * 1000)
      × (usec < 1_000_000)
      × (pos 0 ≤ℤ source_fd)
      × (source_fd <ℤ pos 1024)
      × (let wait = select_file (source_fd +ℤ pos 1) sec usec ∷ trace in
          let reply = os trace (select_file (source_fd +ℤ pos 1) sec usec) in
          let answer = os wait (read_event source_fd) in
          (((reply.ret ≡ pos 0) × (polled ≡ none) × (trace' ≡ wait))
            ⊎ ((pos 0 <ℤ reply.ret)
                × (answer.ret ≡ sizeof_input_event)
                × (polled ≡ some (carried answer.filled))
                × (trace' ≡ read_event source_fd ∷ wait))))
unfolding get_next_event read_next
get_next_event_waits os source_fd timeout_ms trace trace' polled e =
    let sec = timeout_ms / 1000 in
    let usec = (timeout_ms % 1000) * 1000 in
    let call = select_file (source_fd +ℤ pos 1) sec usec in
    let answer = os (call ∷ trace) (read_event source_fd) in
    (
      sec,
      usec,
      omega arith,
      omega arith,
      ground (arith, e),
      ground (arith, e),
      elim (Bool-cases ((os trace call).ret ==ℤ pos 0)) [
        | inl z ↦ inl (ground (arith, z), ground (arith, e, z), ground (arith, e, z))
        | inr z ↦ inr (
          ground (arith, e, z),
          ground (arith, e, z),
          ground (arith, e, z, event_in-carried answer.filled),
          ground (arith, e, z),
        )
      ],
    )

-- The calls of a poll.
pub data IsPoll (trace : List Syscall) : List Syscall → Type 0 where
  read : (fd : ℤ) → IsPoll trace (read_event fd ∷ trace)
  waited : (n : ℤ) (sec usec : ℕ) → IsPoll trace (select_file n sec usec ∷ trace)
  waited_and_read :
      (fd n : ℤ) (sec usec : ℕ) → IsPoll trace (read_event fd ∷ select_file n sec usec ∷ trace)

read_next-Safe :
    (os : Os) (source_fd : ℤ) (trace : List Syscall)
    → Safe
        (λ r. (is_some r.0 ≡ true) × (r.1 ≡ read_event source_fd ∷ trace))
        (read_next os source_fd trace)
unfolding read_next
read_next-Safe os source_fd trace =
    let reply = os trace (read_event source_fd) in
    elim (Bool-cases (ltb_ℤ reply.ret (pos 0))) [
      | inl e ↦ rw (e, read_next) by_system
      | inr e ↦ elim (Bool-cases (reply.ret ==ℤ sizeof_input_event)) [
        | inl f ↦ rw (e, f, read_next) (result (refl, refl))
        | inr f ↦ rw (e, f, read_next) by_runtime
      ]
    ]

-- There is no wait, or the descriptor fits in an fd_set.
abbrev pub can_select : ℤ → ℤ → Bool
can_select source_fd timeout_ms = ltb_ℤ timeout_ms (pos 0) || is_in_set source_fd

-- Whatever the system answers, GetNextEvent polls or throws, if it can wait.
pub get_next_event-Safe :
    (os : Os) (source_fd timeout_ms : ℤ) (trace : List Syscall)
    → can_select source_fd timeout_ms ≡ true
    → Safe (λ r. IsPoll trace r.1) (get_next_event os source_fd timeout_ms trace)
unfolding get_next_event
get_next_event-Safe os source_fd (negsuc n) trace c =
    Safe-map (read_next-Safe os source_fd trace)
      λ r p. subst (IsPoll trace) (sym p.1) (read source_fd)
get_next_event-Safe os source_fd (pos n) trace c =
    let usec = (n % 1000) * 1000 in
    let call = select_file (source_fd +ℤ pos 1) (n / 1000) usec in
    let reply = os trace call in
    let s : is_in_set source_fd ≡ true = ground (arith, c) in
    elim (Bool-cases (ltb_ℤ reply.ret (pos 0))) [
      | inl e ↦ rw (s, e, get_next_event) by_system
      | inr e ↦ elim (Bool-cases (reply.ret ==ℤ pos 0)) [
        | inl f ↦ rw (s, e, f, get_next_event) (result (waited _ (n / 1000) usec))
        | inr f ↦
            rw (s, e, f, get_next_event)
              (Safe-map (read_next-Safe os source_fd (call ∷ trace))
                λ r p. subst (IsPoll trace) (sym p.1) (waited_and_read source_fd _ (n / 1000) usec))
      ]
    ]

-- What GetNextEvent returns comes of a poll.
pub get_next_event-Gives :
    (os : Os) (source_fd timeout_ms : ℤ) (trace : List Syscall)
    → Gives (λ r. IsPoll trace r.1) (get_next_event os source_fd timeout_ms trace)
unfolding get_next_event
get_next_event-Gives os source_fd (negsuc n) trace =
    Safe-Gives (get_next_event-Safe os source_fd (negsuc n) trace (ground arith))
get_next_event-Gives os source_fd (pos n) trace = elim (Bool-cases (is_in_set source_fd)) [
  | inl s ↦ Safe-Gives (get_next_event-Safe os source_fd (pos n) trace (ground (arith, s)))
  | inr s ↦ rw (s, get_next_event) throws
]

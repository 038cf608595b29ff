-- ===== src/Evdev/Examples.antt =====
-- Runs of GetNextEvent, and an instance of its theorem.
use halo_keyboard.Prelude.{
  ℕ, pos, ◌+◌, ◌*◌, ◌<◌, ◌≡◌, refl, List, [], ◌∷◌, none, some, ◌+ℤ◌, ◌≤ℤ◌, ◌<ℤ◌, ◌⊎◌,
}
use halo_keyboard.Input.{InputEvent, ev_abs, abs_mt_position_x}
use halo_keyboard.System.{
  Os, Syscall, open_file, close_file, write_event, ioctl, select_file, read_event, nothing,
  filled_event, ok, err, undefined,
}
use halo_keyboard.Uinput.{sizeof_input_event}
use halo_keyboard.Evdev.{get_next_event, read_next}
use halo_keyboard.Evdev.Polling.{carried, get_next_event_waits}

-- Nothing is ever ready.
abbrev quiet : Os
quiet trace call = record { ret = pos 0; errno = 0; filled = nothing }

timed_out :
    get_next_event quiet (pos 6) (pos 1250) [] ≡ ok (none, select_file (pos 7) 1 250_000 ∷ [])
unfolding get_next_event ◌+ℤ◌
timed_out = refl

-- A descriptor that FD_SET does not take.
not_in_set : get_next_event quiet (pos 1024) (pos 1250) [] ≡ err undefined
unfolding get_next_event ◌+ℤ◌
not_in_set = refl

abbrev touch : InputEvent
touch = record { type = ev_abs; code = abs_mt_position_x; value = pos 300 }

-- The sensor is ready, and each read gives the same event.
abbrev ready : Os
ready trace (open_file path) = record { ret = pos 0; errno = 0; filled = nothing }
ready trace (close_file fd) = record { ret = pos 0; errno = 0; filled = nothing }
ready trace (ioctl fd r) = record { ret = pos 0; errno = 0; filled = nothing }
ready trace (write_event fd ev) = record { ret = pos 0; errno = 0; filled = nothing }
ready trace (select_file nfds sec usec) = record { ret = pos 1; errno = 0; filled = nothing }
ready trace (read_event fd) = record { ret = pos 24; errno = 0; filled = filled_event touch }

abbrev waited : List Syscall
waited = select_file (pos 7) 1 250_000 ∷ []

touched : get_next_event ready (pos 6) (pos 1250) [] ≡ ok (some touch, read_event (pos 6) ∷ waited)
unfolding get_next_event read_next ◌+ℤ◌
touched = refl

get_next_event_waits_example :
    (sec : ℕ) × (usec : ℕ) × (sec * 1_000_000 + usec ≡ 1250 * 1000)
    × (usec < 1_000_000)
    × (pos 0 ≤ℤ pos 6)
    × (pos 6 <ℤ pos 1024)
    × (let wait = select_file (pos 6 +ℤ pos 1) sec usec ∷ [] in
        let reply = ready [] (select_file (pos 6 +ℤ pos 1) sec usec) in
        let answer = ready wait (read_event (pos 6)) in
        (((reply.ret ≡ pos 0) × (some touch ≡ none) × (read_event (pos 6) ∷ waited ≡ wait))
          ⊎ ((pos 0 <ℤ reply.ret)
              × (answer.ret ≡ sizeof_input_event)
              × (some touch ≡ some (carried answer.filled))
              × (read_event (pos 6) ∷ waited ≡ read_event (pos 6) ∷ wait))))
get_next_event_waits_example =
    get_next_event_waits ready (pos 6) 1250 [] (read_event (pos 6) ∷ waited) (some touch) touched

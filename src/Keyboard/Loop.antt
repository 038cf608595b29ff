-- ===== src/Keyboard/Loop.antt =====
-- The body of the loop of FakeKeyboard::Consume, with the poll of the sensor and the clock, and the
-- states that the loop reaches.
use halo_keyboard.Prelude.{ℤ, ◌≡◌, Option, List}
use halo_keyboard.Input.{InputEvent}
use halo_keyboard.System.{Os, Syscall, Result, ok, ◌>>=◌}
use halo_keyboard.Evdev.{get_next_event}
use halo_keyboard.Keyboard.Time.{Timespec}
use halo_keyboard.Keyboard.State.{Keyboard}
use halo_keyboard.Keyboard.Consume.{timeout_ms, round}
use halo_keyboard.Keyboard.Rounds.{CanReport}

-- The poll with the timeout of the pending events.
abbrev pub poll : Os → Timespec → ℤ → Keyboard → Result (Option InputEvent × List Syscall)
poll os now source_fd kb =
    timeout_ms now kb.pending_events >>= λ timeout. get_next_event os source_fd timeout kb.trace

-- `now` is the time before the poll and `later` the time after it.
unfoldable pub consume_once : Os → Timespec → Timespec → ℤ → Keyboard → Result Keyboard
consume_once os now later source_fd kb = do
  polled ← poll os now source_fd kb
  round os later polled.0 (record kb { trace = polled.1 })

-- What the poll returns can be reported.
abbrev pub CanPoll : Os → Timespec → ℤ → Keyboard → Type 0
CanPoll os now source_fd kb =
    (polled : Option InputEvent) (trace : List Syscall)
    → poll os now source_fd kb ≡ ok (polled, trace)
    → CanReport kb polled

pub data Loop (os : Os) (source_fd : ℤ) (kb : Keyboard) : Keyboard → Type 0 where
  enter : Loop os source_fd kb kb
  again :
      {k k' : Keyboard}
      → Loop os source_fd kb k
      → (now later : Timespec) → CanPoll os now source_fd k
      → consume_once os now later source_fd k ≡ ok k'
      → Loop os source_fd kb k'

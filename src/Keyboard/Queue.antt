-- ===== src/Keyboard/Queue.antt =====
-- The pending events of fake_keyboard.h and what fake_keyboard.cc does to their list.
use halo_keyboard.Prelude.{ℕ, ℤ, Bool, true, false, not, List, [], ◌∷◌, ◌==ℤ◌, if◌then◌else◌}
use halo_keyboard.Keyboard.Time.{Timespec, timespec_is_later}

pub record Event : Type 0 where
  pub is_guaranteed : Bool
  pub ev_code : ℕ
  pub is_down : Bool
  pub tid : ℤ
  pub deadline : Timespec

-- The constructor.
abbrev pub new_event : ℕ → Bool → Timespec → ℤ → Event
new_event ev_code is_down deadline tid = record {
  is_guaranteed = false;
  ev_code = ev_code;
  is_down = is_down;
  tid = tid;
  deadline = deadline;
}

-- EnqueueEvent: before the first event with a later deadline.
unfoldable pub enqueue : Event → List Event → List Event
enqueue ev [] = ev ∷ []
enqueue ev (it ∷ q) =
    if timespec_is_later it.deadline ev.deadline then ev ∷ it ∷ q else it ∷ enqueue ev q

-- The loop of RejectFinger: every event of the finger is erased.
unfoldable pub erase_events : ℤ → List Event → List Event
erase_events tid [] = []
erase_events tid (it ∷ q) =
    let rest = erase_events tid q in if it.tid ==ℤ tid then rest else it ∷ rest

-- The loop of HandleLeavingFinger: the first event of the finger becomes guaranteed.
unfoldable pub guarantee : ℤ → List Event → List Event
guarantee tid [] = []
guarantee tid (it ∷ q) =
    if it.tid ==ℤ tid then record it { is_guaranteed = true } ∷ q else it ∷ guarantee tid q

-- `up_event_guaranteed` after that loop: the event that it found is a key-up.
unfoldable pub found_up : ℤ → List Event → Bool
found_up tid [] = false
found_up tid (it ∷ q) = if it.tid ==ℤ tid then not it.is_down else found_up tid q

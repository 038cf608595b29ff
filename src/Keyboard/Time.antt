-- ===== src/Keyboard/Time.antt =====
-- struct timespec, AddMsToTimespec and TimespecIsLater of fake_keyboard.cc. The monotonic clock
-- counts from the start of the system, so both fields are natural numbers.
use halo_keyboard.Prelude.{
  ℕ, zero, suc, ◌+◌, ◌-◌, ◌*◌, ◌/◌, Bool, ◌&&◌, ◌||◌, ltb, leb, ◌==◌, if◌then◌else◌,
}

pub record Timespec : Type 0 where
  pub tv_sec : ℕ
  pub tv_nsec : ℕ

abbrev pub ns_per_sec : ℕ
ns_per_sec = 1_000_000_000

abbrev pub ns_per_ms : ℕ
ns_per_ms = 1_000_000

-- The `while` loop, on fuel.
unfoldable pub carry : ℕ → Timespec → Timespec
carry zero t = t
carry (suc fuel) t =
    let rest = carry fuel (record { tv_sec = t.tv_sec + 1; tv_nsec = t.tv_nsec - ns_per_sec }) in
    if leb ns_per_sec t.tv_nsec then rest else t

-- Each round takes a second off, so as many rounds as there are whole seconds are enough.
unfoldable pub add_ms_to_timespec : Timespec → ℕ → Timespec
unfolding carry
add_ms_to_timespec orig additional_ms =
    let nsec = orig.tv_nsec + additional_ms * ns_per_ms in
    carry (nsec / ns_per_sec) (record orig { tv_nsec = nsec })

-- t1 > t2
unfoldable pub timespec_is_later : Timespec → Timespec → Bool
timespec_is_later t1 t2 =
    ltb t2.tv_sec t1.tv_sec || (t1.tv_sec == t2.tv_sec && ltb t2.tv_nsec t1.tv_nsec)

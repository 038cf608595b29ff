-- ===== src/Keyboard/Deadlines.antt =====
-- Deadlines as numbers of nanoseconds: AddMsToTimespec, TimespecIsLater and the timeout of Consume.
use halo_keyboard.Prelude.{
  ℕ, zero, suc, pos, pos_part, ◌+◌, ◌-◌, ◌*◌, ◌/◌, ◌≤◌, ◌<◌, ◌≡◌, List, ◌∷◌, arith, ltb, ◌+ℤ◌, ℤ,
  negsuc, ◌<ℤ◌, ◌≤ℤ◌, scale_ℤ, sub_ℕ, div_ℤ, ltb_ℤ, if◌then◌else◌,
}
use halo_keyboard.Keyboard.Time.{
  Timespec, ns_per_sec, ns_per_ms, carry, add_ms_to_timespec, timespec_is_later,
}
use halo_keyboard.Keyboard.Queue.{Event}
use halo_keyboard.Keyboard.Consume.{timeout_ms, narrow}
use halo_keyboard.System.{ok}

abbrev pub total_ns : Timespec → ℕ
total_ns t = t.tv_sec * ns_per_sec + t.tv_nsec

abbrev pub IsNormal : Timespec → Type 0
IsNormal t = t.tv_nsec < ns_per_sec

carry_lem :
    (fuel : ℕ) (t : Timespec)
    → t.tv_nsec / ns_per_sec ≤ fuel
    → (total_ns (carry fuel t) ≡ total_ns t) × IsNormal (carry fuel t)
unfolding carry
carry_lem zero t h = omega arith
carry_lem (suc fuel) t h =
    ground
      (arith, carry_lem fuel (record { tv_sec = t.tv_sec + 1; tv_nsec = t.tv_nsec - ns_per_sec }))

-- The loop of AddMsToTimespec ends, with the nanoseconds below a second, at the time that is
-- `ms` milliseconds later.
pub add_ms_to_timespec_lem :
    (t : Timespec) (ms : ℕ)
    → (total_ns (add_ms_to_timespec t ms) ≡ total_ns t + ms * ns_per_ms)
      × IsNormal (add_ms_to_timespec t ms)
unfolding add_ms_to_timespec
add_ms_to_timespec_lem t ms =
    let nsec = t.tv_nsec + ms * ns_per_ms in
    omega (arith, carry_lem (nsec / ns_per_sec) (record t { tv_nsec = nsec }))

-- Between normal times TimespecIsLater is the order of the nanoseconds.
pub timespec_is_later_lem :
    (t u : Timespec)
    → IsNormal t
    → IsNormal u
    → timespec_is_later t u ≡ ltb (total_ns u) (total_ns t)
unfolding timespec_is_later
timespec_is_later_lem t u ht hu = ground arith

-- The two times are less than 23 days apart, so the milliseconds between them fit an int.
abbrev pub IsNear : Timespec → Timespec → Type 0
IsNear t u = (t.tv_sec ≤ u.tv_sec + 2_000_000) × (u.tv_sec ≤ t.tv_sec + 2_000_000)

narrow-small : (n : ℕ) → n < 2147483648 → narrow (pos n) ≡ pos n
unfolding narrow
narrow-small n h = ground arith

narrow-small_negative : (n : ℕ) → n < 2147483648 → narrow (negsuc n) ≡ negsuc n
unfolding narrow
narrow-small_negative n h = ground arith

narrow-IsInt : (z : ℤ) → z <ℤ pos 2147483648 → negsuc 2147483647 ≤ℤ z → narrow z ≡ z
narrow-IsInt (pos n) h l = narrow-small n (omega arith)
narrow-IsInt (negsuc n) h l = narrow-small_negative n (omega arith)

-- The expression that Consume narrows.
abbrev milliseconds : Timespec → Timespec → ℤ
milliseconds now deadline =
    scale_ℤ (sub_ℕ deadline.tv_sec now.tv_sec) 1000
    +ℤ div_ℤ (sub_ℕ deadline.tv_nsec now.tv_nsec) 1000000

milliseconds-IsInt :
    (now deadline : Timespec)
    → IsNormal now
    → IsNormal deadline
    → IsNear now deadline
    → (milliseconds now deadline <ℤ pos 2147483600)
      × (negsuc 2147483600 ≤ℤ milliseconds now deadline)
unfolding ◌+ℤ◌
milliseconds-IsInt now deadline hn hd near =
    (ground arith steps 10000000, ground arith steps 10000000)

-- The timeout that Consume computes for a non-empty queue, between normal times that are less than
-- 23 days apart, is a number of milliseconds after which the first event is due, and at most 2 ms
-- more than the time that is left; its computation overflows nowhere.
pub timeout_ms_bounds :
    (now : Timespec) (front : Event) (q : List Event)
    → IsNormal now
    → IsNormal front.deadline
    → IsNear now front.deadline
    → (n : ℕ) × (timeout_ms now (front ∷ q) ≡ ok (pos n))
      × (total_ns front.deadline ≤ total_ns now + n * ns_per_ms)
      × (n * ns_per_ms ≤ (total_ns front.deadline - total_ns now) + 2 * ns_per_ms)
unfolding timeout_ms ◌+ℤ◌
timeout_ms_bounds now front q hn hd near =
    let wait = milliseconds now front.deadline in
    let (high, low) = milliseconds-IsInt now front.deadline hn hd near in
    let e : narrow wait ≡ wait = narrow-IsInt wait (omega (arith, high)) (omega (arith, low)) in
    (
      pos_part (if ltb_ℤ (wait +ℤ pos 1) (pos 0) then pos 1 else wait +ℤ pos 1),
      rw (e, timeout_ms) (ground (arith, high)),
      ground arith steps 10000000,
      ground arith steps 10000000,
    )

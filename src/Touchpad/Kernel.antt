-- ===== src/Touchpad/Kernel.antt =====
-- What the kernel makes of the events written to a virtual touchpad (the multi-touch protocol B).
use halo_keyboard.Prelude.{ℕ, ℤ, pos, negsuc, Bool, ◌&&◌, List, [], ◌∷◌, ◌==◌, ◌==ℤ◌, if◌then◌else◌}
use halo_keyboard.Input.{InputEvent, ev_abs, ev_key, abs_mt_slot}
use halo_keyboard.System.{
  Syscall, open_file, close_file, write_event, ioctl, select_file, read_event,
}

abbrev is_axis : ℕ → InputEvent → Bool
is_axis code ev = ev.type == ev_abs && ev.code == code

-- The slot that axis events go to.
abbrev pub selected : List Syscall → ℤ
selected [] = pos 0
selected (open_file path ∷ trace) = selected trace
selected (close_file fd ∷ trace) = selected trace
selected (ioctl fd request ∷ trace) = selected trace
selected (select_file nfds sec usec ∷ trace) = selected trace
selected (read_event fd ∷ trace) = selected trace
selected (write_event fd ev ∷ trace) = if is_axis abs_mt_slot ev then ev.value else selected trace

-- The value of an axis of a slot, -1 before it is written.
abbrev pub reported : ℕ → ℤ → List Syscall → ℤ
reported code slot [] = negsuc 0
reported code slot (open_file path ∷ trace) = reported code slot trace
reported code slot (close_file fd ∷ trace) = reported code slot trace
reported code slot (ioctl fd request ∷ trace) = reported code slot trace
reported code slot (select_file nfds sec usec ∷ trace) = reported code slot trace
reported code slot (read_event fd ∷ trace) = reported code slot trace
reported code slot (write_event fd ev ∷ trace) =
    if is_axis code ev && selected trace ==ℤ slot then ev.value else reported code slot trace

-- The value of a key or a button, 0 before it is written.
abbrev pub pressed : ℕ → List Syscall → ℤ
pressed code [] = pos 0
pressed code (open_file path ∷ trace) = pressed code trace
pressed code (close_file fd ∷ trace) = pressed code trace
pressed code (ioctl fd request ∷ trace) = pressed code trace
pressed code (select_file nfds sec usec ∷ trace) = pressed code trace
pressed code (read_event fd ∷ trace) = pressed code trace
pressed code (write_event fd ev ∷ trace) =
    if ev.type == ev_key && ev.code == code then ev.value else pressed code trace

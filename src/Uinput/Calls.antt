-- ===== src/Uinput/Calls.antt =====
-- The set-up of the devices opens files and makes requests, and calls nothing else of the system.
use Prim.Native.String.{String}
use halo_keyboard.Prelude.{ℤ, pos, ◌≡◌, List, ◌∷◌, Bool-cases, inl, inr, All, arith, leb_ℤ, Bool}
use halo_keyboard.System.{Os, Syscall, open_file, ioctl, Request, ok, set_up_device, create_device}
use halo_keyboard.Uinput.Device.{
  UinputDevice, Size, create_uinput_fd, finalize_uinput_creation, copy_abs_output_events,
}
use halo_keyboard.Uinput.Requests.{copy_abs_output_events-Keeps}
use halo_keyboard.Evdev.{open_source_device}

-- A property of the calls of a trace that openings and requests have.
module _ (P : Syscall → Type 0) (opens : (path : String) → P (open_file path))
    (requests : (fd : ℤ) (r : Request) → P (ioctl fd r)) (os : Os) where
  pub open_source_device-All :
      (path : String) (source_fd : ℤ) (trace : List Syscall) (opened : (ℤ × List Syscall) × Bool)
      → open_source_device os path source_fd trace ≡ ok opened
      → All P trace
      → All P opened.0.1
  unfolding open_source_device
  open_source_device-All path source_fd trace opened e h =
      let call = open_file path in
      elim (Bool-cases (leb_ℤ (pos 0) source_fd)) [
        | inl l ↦ (let q : opened.0.1 ≡ trace = ground (arith, e, l) in rw q h)
        | inr l ↦ (let q : opened.0.1 ≡ call ∷ trace = ground (arith, e, l) in rw q (opens path, h))
      ]

  pub create_uinput_fd-All :
      (d : UinputDevice) (trace : List Syscall)
      → All P trace
      → All P (create_uinput_fd os d trace).1
  unfolding create_uinput_fd
  create_uinput_fd-All d trace h = elim (Bool-cases (leb_ℤ (pos 0) d.uinput_fd)) [
    | inl l ↦ rw (l, create_uinput_fd) h
    | inr l ↦ rw (l, create_uinput_fd) (opens "/dev/uinput", h)
  ]

  pub finalize_uinput_creation-All :
      (d : UinputDevice) (name : String) (trace : List Syscall)
      → All P trace
      → All P (finalize_uinput_creation os d name trace).1
  unfolding finalize_uinput_creation
  finalize_uinput_creation-All d name trace h =
      ground
        (arith, h, requests d.uinput_fd (set_up_device name), requests d.uinput_fd create_device)

  pub copy_abs_output_events-All :
      (fd source_fd : ℤ) (size : Size) (trace : List Syscall)
      → All P trace
      → All P (copy_abs_output_events os fd source_fd size trace).0
  copy_abs_output_events-All =
      copy_abs_output_events-Keeps os (All P) λ fd r trace s h. (requests fd r, h)

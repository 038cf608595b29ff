-- ===== src/Uinput/Requests.antt =====
-- The set-up of the axes makes requests that neither create nor destroy a device, and calls nothing
-- else of the system.
use halo_keyboard.Prelude.{
  ℕ, zero, suc, ℤ, pos, ◌≡◌, refl, Bool, true, false, List, ◌∷◌, Bool-cases, inl, inr, arith,
}
use halo_keyboard.Input.{abs_cnt, ev_abs}
use halo_keyboard.System.{
  Os, Syscall, ioctl, Request, get_event_types, get_abs_codes, get_abs_info, set_event_type,
  set_key, set_abs, set_up_abs, set_up_device, create_device, destroy_device, upload_effect,
}
use halo_keyboard.Uinput.Device.{
  Size, enable_event_type, enable_abs_event, copy_axis, copy_if_supported, copy_axes,
  copy_abs_output_events, is_event_supported, resized, info_in, bytes_in, bytes_for_bits,
}

abbrev pub is_set_up : Request → Bool
is_set_up get_event_types = true
is_set_up get_abs_codes = true
is_set_up (get_abs_info code) = true
is_set_up (set_event_type ev_type) = true
is_set_up (set_key code) = true
is_set_up (set_abs code) = true
is_set_up (set_up_abs code info) = true
is_set_up (set_up_device name) = true
is_set_up create_device = false
is_set_up destroy_device = false
is_set_up (upload_effect magnitude length_ms) = false

-- A property of the trace that such requests keep.
module _ (os : Os) (Q : List Syscall → Type 0)
    (asks : (fd : ℤ) (r : Request) (trace : List Syscall)
      → is_set_up r ≡ true
      → Q trace
      → Q (ioctl fd r ∷ trace)) where
  copy_axis-Keeps :
      (fd source_fd : ℤ) (size : Size) (code : ℕ) (trace : List Syscall)
      → Q trace
      → Q (copy_axis os fd source_fd size code trace).0
  unfolding copy_axis enable_abs_event
  copy_axis-Keeps fd source_fd size code trace h =
      let enabled = ioctl fd (set_abs code) ∷ trace in
      let query = ioctl source_fd (get_abs_info code) in
      let info = resized size code (info_in (os enabled query).filled) in
      let q1 = asks fd (set_abs code) trace refl h in
      let q2 = asks source_fd (get_abs_info code) enabled refl q1 in
      let q3 = asks fd (set_up_abs code info) (query ∷ enabled) refl q2 in
      ground (arith, q1, q2, q3)

  copy_if_supported-Keeps :
      (fd source_fd : ℤ) (size : Size) (supported : List ℕ) (code : ℕ) (trace : List Syscall)
      → Q trace
      → Q (copy_if_supported os fd source_fd size supported code trace).0
  unfolding copy_if_supported
  copy_if_supported-Keeps fd source_fd size supported code trace h =
      elim (Bool-cases (is_event_supported (pos code) supported)) [
        | inl s ↦ rw (s, copy_if_supported) (copy_axis-Keeps fd source_fd size code trace h)
        | inr s ↦ rw (s, copy_if_supported) h
      ]

  copy_axes-Keeps :
      (left : ℕ) (fd source_fd : ℤ) (size : Size) (supported : List ℕ) (code : ℕ)
      (trace : List Syscall)
      → Q trace
      → Q (copy_axes left os fd source_fd size supported code trace).0
  unfolding copy_axes
  copy_axes-Keeps zero fd source_fd size supported code trace h = h
  copy_axes-Keeps (suc left) fd source_fd size supported code trace h =
      let copied = copy_if_supported-Keeps fd source_fd size supported code trace h in
      elim (Bool-cases (copy_if_supported os fd source_fd size supported code trace).1) [
        | inl c ↦
            rw (c, copy_axes) (copy_axes-Keeps left fd source_fd size supported (suc code) _ copied)
        | inr c ↦ rw (c, copy_axes) copied
      ]

  pub copy_abs_output_events-Keeps :
      (fd source_fd : ℤ) (size : Size) (trace : List Syscall)
      → Q trace
      → Q (copy_abs_output_events os fd source_fd size trace).0
  unfolding copy_abs_output_events enable_event_type
  copy_abs_output_events-Keeps fd source_fd size trace h =
      let typed = ioctl source_fd get_event_types ∷ trace in
      let enabled = ioctl fd (set_event_type ev_abs) ∷ typed in
      let codes = ioctl source_fd get_abs_codes in
      let supported = bytes_in (bytes_for_bits abs_cnt) (os enabled codes).filled in
      let q1 = asks source_fd get_event_types trace refl h in
      let q2 = asks fd (set_event_type ev_abs) typed refl q1 in
      let q3 = asks source_fd get_abs_codes enabled refl q2 in
      ground (
        arith,
        q1,
        q2,
        q3,
        copy_axes-Keeps abs_cnt fd source_fd size supported 0 (codes ∷ enabled) q3,
      )

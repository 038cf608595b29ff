-- ===== src/Uinput/Axes.antt =====
-- What CopyABSOutputEvents has configured when it succeeds.
use halo_keyboard.Prelude.{
  ℕ, ℤ, pos, ◌+◌, ◌≡◌, Bool, true, false, ◌&&◌, ◌||◌, List, [], ◌∷◌, Option, none, some, ltb, leb,
  ◌==◌, ◌==ℤ◌, if◌then◌else◌,
}
use halo_keyboard.Input.{ev_abs, abs_cnt}
use halo_keyboard.System.{
  Os, Syscall, ioctl, Request, set_abs, set_up_abs, get_event_types, get_abs_codes, get_abs_info,
  set_event_type, AbsInfo,
}
use halo_keyboard.Uinput.Device.{Size, is_event_supported, info_in, bytes_in, bytes_for_bits}

abbrev abs_of : Request → Option ℕ
abs_of (set_abs code) = some code
abs_of _ = none

abbrev set_up_of : Request → Option (ℕ × AbsInfo)
set_up_of (set_up_abs code info) = some (code, info)
set_up_of _ = none

abbrev is_code : ℕ → Option ℕ → Bool
is_code code none = false
is_code code (some c) = c == code

abbrev info_for : ℕ → Option (ℕ × AbsInfo) → Option AbsInfo
info_for code none = none
info_for code (some (c, info)) = if c == code then some info else none

abbrev first {ℓ} : {A : Type ℓ} → Option A → Option A → Option A
first none b = b
first (some a) b = some a

-- A question of what the source says of the axis.
abbrev info_of : ℕ → Request → Bool
info_of code (get_abs_info c) = c == code
info_of code _ = false

abbrev succeeded : Os → List Syscall → ℤ → Request → Bool
succeeded os trace fd r = (os trace (ioctl fd r)).ret ==ℤ pos 0

-- UI_SET_ABSBIT has succeeded for the axis on the device `fd`.
abbrev pub is_enabled : Os → ℤ → ℕ → List Syscall → Bool
is_enabled os fd code [] = false
is_enabled os fd code (ioctl f r ∷ trace) =
    (f ==ℤ fd && is_code code (abs_of r) && succeeded os trace f r) || is_enabled os fd code trace
is_enabled os fd code (_ ∷ trace) = is_enabled os fd code trace

-- The range of the last UI_ABS_SETUP that has succeeded for the axis on the device `fd`.
abbrev pub range_of : Os → ℤ → ℕ → List Syscall → Option AbsInfo
range_of os fd code [] = none
range_of os fd code (ioctl f r ∷ trace) =
    first (if f ==ℤ fd && succeeded os trace f r then info_for code (set_up_of r) else none)
      (range_of os fd code trace)
range_of os fd code (_ ∷ trace) = range_of os fd code trace

-- What the source `source_fd` has last answered for the axis to EVIOCGABS.
abbrev pub source_info : Os → ℤ → ℕ → List Syscall → Option AbsInfo
source_info os source_fd code [] = none
source_info os source_fd code (ioctl f r ∷ trace) =
    first
      (if f ==ℤ source_fd && info_of code r
        then some (info_in (os trace (ioctl f r)).filled)
        else none)
      (source_info os source_fd code trace)
source_info os source_fd code (_ ∷ trace) = source_info os source_fd code trace

abbrev is_horizontal : ℕ → Bool
is_horizontal code = code == 0 || code == 53

abbrev is_vertical : ℕ → Bool
is_vertical code = code == 1 || code == 54

-- The range of an axis: ABS_X (0) and ABS_MT_POSITION_X (53) go from 0 to the new width, ABS_Y (1)
-- and ABS_MT_POSITION_Y (54) from 0 to the new height, each with its resolution; whatever else the
-- source says of an axis is kept.
abbrev pub range_for : Size → ℕ → AbsInfo → AbsInfo
range_for size code source = record {
  minimum = if is_horizontal code || is_vertical code then pos 0 else source.minimum;
  maximum =
      if is_horizontal code
      then size.width
      else if is_vertical code
      then size.height
      else source.maximum;
  resolution =
      if is_horizontal code
      then size.xres
      else if is_vertical code
      then size.yres
      else source.resolution;
  rest = source.rest;
}

-- The axis is enabled, and has the range that goes with what the source says of it.
abbrev pub IsConfigured : Os → ℤ → ℤ → Size → ℕ → List Syscall → Type 0
IsConfigured os fd source_fd size code trace =
    (is_enabled os fd code trace ≡ true)
    × (source : AbsInfo) × (source_info os source_fd code trace ≡ some source)
    × (range_of os fd code trace ≡ some (range_for size code source))

abbrev pub IsUntouched : Os → ℤ → ℤ → ℕ → List Syscall → List Syscall → Type 0
IsUntouched os fd source_fd code trace trace' =
    (is_enabled os fd code trace' ≡ is_enabled os fd code trace)
    × (range_of os fd code trace' ≡ range_of os fd code trace)
    × (source_info os source_fd code trace' ≡ source_info os source_fd code trace)

module _ (os : Os) (fd source_fd : ℤ) (size : Size) where
  -- What the loop leaves of the axis `i`: a supported one that it passes is configured, and every
  -- other is as it was.
  abbrev IsCopied : List ℕ → ℕ → ℕ → ℕ → List Syscall → List Syscall → Type 0
  IsCopied supported left code i trace trace' =
      ((leb code i && ltb i (code + left) && is_event_supported (pos i) supported) ≡ true
        → IsConfigured os fd source_fd size i trace')
      × ((leb code i && ltb i (code + left) && is_event_supported (pos i) supported) ≡ false
          → IsUntouched os fd source_fd i trace trace')

  -- A round of the loop, for a code that is supported or not.
  abbrev IsStep : List ℕ → ℕ → List Syscall → List Syscall → Type 0
  IsStep supported code trace trace' =
      (is_event_supported (pos code) supported ≡ true
        → IsConfigured os fd source_fd size code trace')
      × ((i : ℕ)
          → ((code == i) && is_event_supported (pos code) supported) ≡ false
          → IsUntouched os fd source_fd i trace trace')

  -- The codes that the source supports, by its answer to the second query.
  abbrev supported_codes : List Syscall → List ℕ
  supported_codes trace =
      bytes_in (bytes_for_bits abs_cnt)
        (os (ioctl fd (set_event_type ev_abs) ∷ ioctl source_fd get_event_types ∷ trace)
          (ioctl source_fd get_abs_codes)).filled

-- ===== src/Uinput/Device.antt =====
-- The life of a UinputDevice and the set-up of what it can send.
use Prim.Native.String.{String}
use halo_keyboard.Prelude.{
  ℕ, zero, suc, ℤ, pos, negsuc, ◌+◌, ◌/◌, ◌%◌, ◌^◌, Bool, true, false, not, ◌&&◌, ◌||◌, List, [],
  ◌∷◌, Option, none, some, get_elem?, ltb_ℤ, leb_ℤ, ◌==◌, ◌==ℤ◌, if◌then◌else◌,
}
use halo_keyboard.Input.{
  ev_abs, abs_x, abs_y, abs_mt_position_x, abs_mt_position_y, ev_cnt, abs_cnt,
}
use halo_keyboard.System.{
  Os, Syscall, open_file, close_file, ioctl, Request, get_event_types, get_abs_codes, get_abs_info,
  set_event_type, set_key, set_abs, set_up_abs, set_up_device, create_device, destroy_device,
  AbsInfo, Filled, nothing, filled_bytes, filled_info, filled_event, filled_id,
}

pub record UinputDevice : Type 0 where
  pub uinput_fd : ℤ
  pub device_created : Bool

-- The constructors.
abbrev pub init : UinputDevice
init = record { uinput_fd = negsuc 0; device_created = false }

-- The destructor; what fails in it is only logged.
unfoldable pub destroy : UinputDevice → List Syscall → List Syscall
destroy d trace =
    let destroyed =
      if leb_ℤ (pos 0) d.uinput_fd && d.device_created
      then ioctl d.uinput_fd destroy_device ∷ trace
      else trace in
    if leb_ℤ (pos 0) d.uinput_fd then close_file d.uinput_fd ∷ destroyed else destroyed

unfoldable pub create_uinput_fd :
    Os → UinputDevice → List Syscall → UinputDevice × List Syscall × Bool
create_uinput_fd os d trace =
    if leb_ℤ (pos 0) d.uinput_fd
    then (d, trace, false)
    else (let call = open_file "/dev/uinput" in
        let fd = (os trace call).ret in
        (record d { uinput_fd = fd }, call ∷ trace, not (ltb_ℤ fd (pos 0))))

-- An ioctl that succeeds with 0, on the descriptor `fd`.
abbrev pub request : Os → ℤ → Request → List Syscall → List Syscall × Bool
request os fd r trace = (ioctl fd r ∷ trace, (os trace (ioctl fd r)).ret ==ℤ pos 0)

unfoldable pub enable_event_type : Os → ℤ → ℕ → List Syscall → List Syscall × Bool
enable_event_type os fd ev_type = request os fd (set_event_type ev_type)

unfoldable pub enable_key_event : Os → ℤ → ℕ → List Syscall → List Syscall × Bool
enable_key_event os fd ev_code = request os fd (set_key ev_code)

unfoldable pub enable_abs_event : Os → ℤ → ℕ → List Syscall → List Syscall × Bool
enable_abs_event os fd ev_code = request os fd (set_abs ev_code)

unfoldable pub finalize_uinput_creation :
    Os → UinputDevice → String → List Syscall → UinputDevice × List Syscall × Bool
finalize_uinput_creation os d device_name trace =
    let (set_up, ok1) = request os d.uinput_fd (set_up_device device_name) trace in
    if not ok1
    then (d, set_up, false)
    else (let (created, ok2) = request os d.uinput_fd create_device set_up in
        if not ok2
        then (d, created, false)
        else (record d { device_created = true }, created, true))

abbrev pub bytes_for_bits : ℕ → ℕ
bytes_for_bits bit_count = (bit_count + 7) / 8

-- An array of `n` zero bytes, filled from the front.
abbrev pub fit : ℕ → List ℕ → List ℕ
fit zero bytes = []
fit (suc n) [] = 0 ∷ fit n []
fit (suc n) (b ∷ bytes) = b ∷ fit n bytes

abbrev pub bytes_in : ℕ → Filled → List ℕ
bytes_in n nothing = fit n []
bytes_in n (filled_bytes bytes) = fit n bytes
bytes_in n (filled_info info) = fit n []
bytes_in n (filled_event ev) = fit n []
bytes_in n (filled_id id) = fit n []

abbrev pub no_info : AbsInfo
no_info = record { minimum = pos 0; maximum = pos 0; resolution = pos 0; rest = [] }

abbrev pub info_in : Filled → AbsInfo
info_in nothing = no_info
info_in (filled_bytes bytes) = no_info
info_in (filled_info info) = info
info_in (filled_event ev) = no_info
info_in (filled_id id) = no_info

-- `supported_events[event / 8] & (1U << (event % 8))`
abbrev bit_of : ℕ → Option ℕ → Bool
bit_of event none = false
bit_of event (some byte) = (byte / 2 ^ (event % 8)) % 2 == 1

-- IsEventSupported, for an array of as many bytes as it is told; the caller never passes null.
unfoldable pub is_event_supported : ℤ → List ℕ → Bool
is_event_supported (negsuc n) supported_events = false
is_event_supported (pos event) supported_events =
    bit_of event (get_elem? supported_events (event / 8))

-- The new width, height and resolutions of the axes.
pub record Size : Type 0 where
  pub width : ℤ
  pub height : ℤ
  pub xres : ℤ
  pub yres : ℤ

abbrev pub is_x_code : ℕ → Bool
is_x_code ev_code = ev_code == abs_mt_position_x || ev_code == abs_x

abbrev pub is_y_code : ℕ → Bool
is_y_code ev_code = ev_code == abs_mt_position_y || ev_code == abs_y

unfoldable pub resized : Size → ℕ → AbsInfo → AbsInfo
resized size ev_code info =
    if is_x_code ev_code
    then record info { minimum = pos 0; maximum = size.width; resolution = size.xres }
    else if is_y_code ev_code
    then record info { minimum = pos 0; maximum = size.height; resolution = size.yres }
    else info

-- What the loop of CopyABSOutputEvents does for a supported code.
unfoldable pub copy_axis : Os → ℤ → ℤ → Size → ℕ → List Syscall → List Syscall × Bool
copy_axis os fd source_fd size ev_code trace =
    let (enabled, ok1) = enable_abs_event os fd ev_code trace in
    if not ok1
    then (enabled, false)
    else (let query = ioctl source_fd (get_abs_info ev_code) in
        let reply = os enabled query in
        if ltb_ℤ reply.ret (pos 0)
        then (query ∷ enabled, false)
        else request os fd (set_up_abs ev_code (resized size ev_code (info_in reply.filled)))
            (query ∷ enabled))

-- The body of the loop: a code that is not supported is skipped.
unfoldable pub copy_if_supported :
    Os → ℤ → ℤ → Size → List ℕ → ℕ → List Syscall → List Syscall × Bool
copy_if_supported os fd source_fd size supported ev_code trace =
    if is_event_supported (pos ev_code) supported
    then copy_axis os fd source_fd size ev_code trace
    else (trace, true)

-- The loop, for as many codes as are left from `ev_code` on.
unfoldable pub copy_axes : ℕ → Os → ℤ → ℤ → Size → List ℕ → ℕ → List Syscall → List Syscall × Bool
copy_axes zero os fd source_fd size supported ev_code trace = (trace, true)
copy_axes (suc left) os fd source_fd size supported ev_code trace =
    let copied = copy_if_supported os fd source_fd size supported ev_code trace in
    elim copied.1 [
      | true ↦ copy_axes left os fd source_fd size supported (suc ev_code) copied.0
      | false ↦ copied
    ]

unfoldable pub copy_abs_output_events : Os → ℤ → ℤ → Size → List Syscall → List Syscall × Bool
copy_abs_output_events os fd source_fd size trace =
    let types = ioctl source_fd get_event_types in
    let codes = ioctl source_fd get_abs_codes in
    let typed = types ∷ trace in
    let (enabled, ok1) = enable_event_type os fd ev_abs typed in
    if ltb_ℤ (os trace types).ret (pos 0)
    then (typed, false)
    else if not
        (is_event_supported (pos ev_abs) (bytes_in (bytes_for_bits ev_cnt) (os trace types).filled))
    then (typed, false)
    else if not ok1
    then (enabled, false)
    else if ltb_ℤ (os enabled codes).ret (pos 0)
    then (codes ∷ enabled, false)
    else copy_axes abs_cnt os fd source_fd size
        (bytes_in (bytes_for_bits abs_cnt) (os enabled codes).filled) 0 (codes ∷ enabled)

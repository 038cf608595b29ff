-- ===== src/Touchpad/Passing.antt =====
-- PassEventsThrough: where each axis of the virtual device comes from, and its range.
use halo_keyboard.Prelude.{
  ℕ, ℤ, pos, negsuc, ◌%◌, ◌^◌, ◌≤ℤ◌, ◌≡◌, refl, Bool, true, false, not, ◌&&◌, ◌||◌, List, [], ◌∷◌,
  Option, none, some, Bool-cases, inl, inr, -ℤ_parts, Distinct, find, arith, ◌-ℤ◌, ◌==◌, ◌==ℤ◌,
  if◌then◌else◌, ap, eq_of_parts,
}
use halo_keyboard.Input.{
  ev_abs, abs_mt_slot, abs_mt_position_x, abs_mt_position_y, abs_mt_tracking_id,
}
use halo_keyboard.System.{Syscall, Os}
use halo_keyboard.Uinput.Writes.{Ends, Ends-bind, Ends-map, send_event-Ends, done}
use halo_keyboard.Multitouch.EventKey.{
  EventKey, event_key_eq, equals, equals_iff, is_supported_for_touchpads,
}
use halo_keyboard.Multitouch.Slot.{Slot, find_value_by_event}
use halo_keyboard.Hardware.{is_supported_rotation}
use halo_keyboard.Touchpad.Region.{Region, contains, to_region, declared_size}
use halo_keyboard.Touchpad.Sync.{send_value, makes_valid, pass_events_through}
use halo_keyboard.Touchpad.Kernel.{selected, reported}

abbrev pub axis : ℕ → EventKey
axis code = record { type = ev_abs; code = code }

-- The sensor is turned on its side.
abbrev is_turned : Region → Bool
is_turned g = g.rotation ==ℤ pos 90 || g.rotation ==ℤ pos 270

-- The axis of the source that an axis of the virtual device shows.
abbrev pub source_code : Region → ℕ → ℕ
source_code g code =
    if is_turned g && code == abs_mt_position_x
    then abs_mt_position_y
    else if is_turned g && code == abs_mt_position_y
    then abs_mt_position_x
    else code

-- Where a value of its source stands on an axis of the virtual device: the distance from the edge
-- of the region that is the left or the upper one once the sensor is turned. Other axes keep their
-- values.
abbrev pub value_shown : Region → ℕ → ℤ → ℤ
value_shown g code value =
    if code == abs_mt_position_x
    then (if g.rotation ==ℤ pos 90
        then g.ymax -ℤ value
        else if g.rotation ==ℤ pos 180
        then g.xmax -ℤ value
        else if g.rotation ==ℤ pos 270
        then value -ℤ g.ymin
        else value -ℤ g.xmin)
    else if code == abs_mt_position_y
    then (if g.rotation ==ℤ pos 90
        then value -ℤ g.xmin
        else if g.rotation ==ℤ pos 180
        then g.ymax -ℤ value
        else if g.rotation ==ℤ pos 270
        then g.xmax -ℤ value
        else value -ℤ g.ymin)
    else value

abbrev pub IsPassed : ℕ → Type 0
IsPassed code = is_supported_for_touchpads (axis code) ≡ true

-- A supported key is shown on the axis whose source it is.
to_region-source_code :
    (g : Region) (key : EventKey) (code : ℕ) (value : ℤ)
    → is_supported_for_touchpads key ≡ true
    → IsPassed code
    → ((to_region g key value).0 % 2 ^ 16 == code) ≡ (key.code == source_code g code)
unfolding to_region
to_region-source_code g key code value s c = ground arith

to_region-not_slot :
    (g : Region) (key : EventKey) (value : ℤ)
    → is_supported_for_touchpads key ≡ true
    → ((to_region g key value).0 % 2 ^ 16 == abs_mt_slot) ≡ false
unfolding to_region
to_region-not_slot g key value s = ground arith

-- The distance from the far edge.
mirrored : (low high v : ℤ) → high -ℤ low -ℤ (v -ℤ low) ≡ high -ℤ v
mirrored low high v = eq_of_parts _ _ (
    omega (
      arith,
      -ℤ_parts v low,
      -ℤ_parts high low,
      -ℤ_parts (high -ℤ low) (v -ℤ low),
      -ℤ_parts high v,
    ))

pub to_region-value_shown :
    (g : Region) (key : EventKey) (code : ℕ) (value : ℤ)
    → IsPassed code
    → key ≡ axis (source_code g code)
    → (to_region g key value).1 ≡ value_shown g code value
unfolding to_region
to_region-value_shown g key code value s e = ground (
  arith,
  mirrored g.xmin g.xmax value,
  mirrored g.ymin g.ymax value,
  ap (λ k. k.code) e,
  ap (λ k. k.type) e,
)

source_code-IsPassed : (g : Region) (code : ℕ) → IsPassed code → IsPassed (source_code g code)
source_code-IsPassed g code c = ground arith

-- One entry of a slot changes the axes that show it, in the selected slot.
send_value-Ends :
    (os : Os) (g : Region) (fd : ℤ) (key : EventKey) (value : ℤ) (trace : List Syscall)
    → Ends os
        (λ trace'.
          (selected trace' ≡ selected trace)
          × ((code : ℕ) (slot : ℤ)
              → IsPassed code
              → reported code slot trace' ≡ (
                  if equals key (axis (source_code g code)) && selected trace ==ℤ slot
                  then value_shown g code value
                  else reported code slot trace)))
        (send_value os g fd key value trace)
unfolding send_value
send_value-Ends os g fd key value trace = elim (Bool-cases (is_supported_for_touchpads key)) [
  | inl s ↦
      rw (s, send_value)
        (Ends-map
          (send_event-Ends os fd trace key.type (to_region g key value).0 (to_region g key value).1)
          λ trace' e.
            let n = to_region-not_slot g key value s in
            rw e (
              ground (arith, n, s),
              λ code slot c. ground (
                arith,
                s,
                to_region-source_code g key code value s c,
                to_region-value_shown g key code value c,
                equals_iff key (axis (source_code g code)),
              ),
            ))
  | inr s ↦
      rw (s, send_value)
        (done (refl, λ code slot c. ground (arith, s, source_code-IsPassed g code c)))
]

abbrev pub either : Option ℤ → ℤ → (ℤ → ℤ) → ℤ
either none old f = old
either (some v) old f = f v

-- Each axis of the selected slot shows its source, if that has a value; nothing else has changed.
abbrev pub IsShown : Region → Slot → List Syscall → List Syscall → Type 0
IsShown g entries trace trace' =
    (selected trace' ≡ selected trace)
    × ((code : ℕ) (slot : ℤ)
        → IsPassed code
        → reported code slot trace' ≡ (
            if selected trace ==ℤ slot
            then either (find (axis (source_code g code)) entries) (reported code slot trace)
                (value_shown g code)
            else reported code slot trace))

abbrev pub is_current : Option ℤ → Bool
is_current none = false
is_current (some v) = not (v ==ℤ negsuc 0)

pub pass_events_through-Ends :
    (os : Os) (g : Region) (fd : ℤ) (entries : Slot) (b : Bool) (trace : List Syscall)
    → Distinct entries
    → Ends os
        (λ r.
          (r.0 ≡ (b || is_current (find (axis abs_mt_tracking_id) entries)))
          × IsShown g entries trace r.1)
        (pass_events_through os g fd entries b trace)
unfolding pass_events_through find
pass_events_through-Ends os g fd [] b trace d =
    done (ground arith, (refl, λ code slot c. ground arith))
pass_events_through-Ends os g fd ((key, value) ∷ entries) b trace d =
    Ends-bind (send_value-Ends os g fd key value trace) λ trace1 p.
      Ends-map (pass_events_through-Ends os g fd entries (b || makes_valid key value) trace1 d.1)
        λ r q. (
          ground (arith, q.0, d.0, equals_iff key (axis abs_mt_tracking_id)),
          (
            ground (arith, p.0, q.1.0),
            λ code slot c. ground (
              arith,
              q.1.1 code slot c,
              p.1 code slot c,
              p.0,
              d.0,
              equals_iff key (axis (source_code g code)),
            ),
          ),
        )

-- What an axis of the virtual device shows of a slot.
abbrev pub shown : Region → Slot → ℕ → ℤ
shown g slot code =
    (to_region g (axis (source_code g code))
      (find_value_by_event slot ev_abs (source_code g code))).1

-- A value between two edges, measured from the one and from the other.
within :
    (low high v : ℤ)
    → low ≤ℤ v
    → v ≤ℤ high
    → (pos 0 ≤ℤ v -ℤ low)
      × (v -ℤ low ≤ℤ high -ℤ low)
      × (pos 0 ≤ℤ high -ℤ low -ℤ (v -ℤ low))
      × (high -ℤ low -ℤ (v -ℤ low) ≤ℤ high -ℤ low)
within low high v a b =
    omega (arith, -ℤ_parts v low, -ℤ_parts high low, -ℤ_parts (high -ℤ low) (v -ℤ low))

contains-edges :
    (g : Region) (slot : Slot)
    → contains g slot ≡ true
    → (g.xmin ≤ℤ find_value_by_event slot ev_abs abs_mt_position_x)
      × (find_value_by_event slot ev_abs abs_mt_position_x ≤ℤ g.xmax)
      × (g.ymin ≤ℤ find_value_by_event slot ev_abs abs_mt_position_y)
      × (find_value_by_event slot ev_abs abs_mt_position_y ≤ℤ g.ymax)
unfolding contains
contains-edges g slot c = ground arith

-- A contact in the region is shown within the declared range of each axis, for each supported
-- rotation of the sensor.
pub shown_bounds :
    (g : Region) (slot : Slot)
    → is_supported_rotation g.rotation ≡ true
    → contains g slot ≡ true
    → (pos 0 ≤ℤ shown g slot abs_mt_position_x)
      × (shown g slot abs_mt_position_x ≤ℤ (declared_size g).0)
      × (pos 0 ≤ℤ shown g slot abs_mt_position_y)
      × (shown g slot abs_mt_position_y ≤ℤ (declared_size g).1)
unfolding to_region declared_size
shown_bounds g slot r c =
    let (a, b, d, e) = contains-edges g slot c in
    let x = find_value_by_event slot ev_abs abs_mt_position_x in
    let y = find_value_by_event slot ev_abs abs_mt_position_y in
    ground (arith, within g.xmin g.xmax x a b, within g.ymin g.ymax y d e)

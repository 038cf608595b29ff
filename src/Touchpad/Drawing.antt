-- ===== src/Touchpad/Drawing.antt =====
-- The positions and the other axes that the virtual touchpad shows at the end of a frame.
use halo_keyboard.Prelude.{
  ℕ, zero, suc, ℤ, pos, negsuc, ◌+◌, ◌≤◌, ◌≡◌, refl, ap, ◌∙◌, Bool, true, false, not, ◌&&◌, List,
  [], ◌∷◌, none, some, Bool-cases, inl, inr, Distinct, find, arith, All, get_elem?, get_elem?-some,
  length, length-modify, ◌==◌, if◌then◌else◌, ◌≤ℤ◌, ◌||◌,
}
use halo_keyboard.Input.{
  InputEvent, ev_abs, ev_key, ev_syn, syn_report, abs_mt_slot, abs_mt_tracking_id, btn_touch,
  btn_tool_finger, btn_tool_doubletap, btn_tool_tripletap, btn_tool_quadtap, abs_mt_position_x,
  abs_mt_position_y,
}
use halo_keyboard.System.{Syscall, Os, ok, write_event}
use halo_keyboard.Uinput.{event_of, send_event}
use halo_keyboard.Uinput.Writes.{Ends, Ends-bind, Ends-map, Ends-both, send_event-Ends, done}
use halo_keyboard.Multitouch.EventKey.{event_key_eq}
use halo_keyboard.Multitouch.Slot.{Slot, find_value_by_event}
use halo_keyboard.Multitouch.Frames.{is_report, add_event_complete}
use halo_keyboard.Touchpad.Region.{Region, Touchpad, contains, declared_size}
use halo_keyboard.Touchpad.Kernel.{selected, reported}
use halo_keyboard.Touchpad.Passing.{
  axis, source_code, value_shown, IsPassed, pass_events_through-Ends, shown, shown_bounds,
  to_region-value_shown,
}
use halo_keyboard.Touchpad.Slots.{sync_slot-Ends}
use halo_keyboard.Touchpad.Syncing.{IsMatched}
use halo_keyboard.Touchpad.Sync.{
  sync_slot, sync_slots, sync_touch_events, send_touchpad_btn_events, round,
}
use halo_keyboard.Hardware.{is_supported_rotation}

-- An axis of a slot of the virtual device shows its source, if the contact is in the region.
abbrev pub IsDrawn : Region → Slot → ℕ → ℕ → List Syscall → Type 0
IsDrawn g slot code i trace =
    (v : ℤ)
    → contains g slot ≡ true
    → find (axis (source_code g code)) slot ≡ some v
    → reported code (pos i) trace ≡ value_shown g code v

-- Slots but this one are as they were.
abbrev Keeps : ℕ → ℕ → List Syscall → List Syscall → Type 0
Keeps code index trace trace' =
    (j : ℕ) → (index == j) ≡ false → reported code (pos j) trace' ≡ reported code (pos j) trace

module _ (os : Os) (code : ℕ) (s : IsPassed code) where
  sync_slot-IsDrawn :
      (index : ℕ) (slot : Slot) (member : Bool) (tp : Touchpad)
      → Distinct slot
      → Ends os
          (λ r. IsDrawn tp.region slot code index r.1.trace × Keeps code index tp.trace r.1.trace)
          (sync_slot os index slot member tp)
  unfolding sync_slot
  sync_slot-IsDrawn index slot member tp d =
      Ends-bind (send_event-Ends os tp.fd tp.trace ev_abs abs_mt_slot (pos index)) λ trace e.
        elim (Bool-cases (contains tp.region slot)) [
          | inr c ↦ rw c (
              Ends-bind (id_written member trace (negsuc 0) e)
                λ trace' p. done ((λ v c'. cc c'), p.1))
          | inl c ↦ rw c (
              Ends-bind
                (id_written (not member) trace (find_value_by_event slot ev_abs abs_mt_tracking_id)
                  e)
                λ trace' p.
                  Ends-bind (pass_events_through-Ends os tp.region tp.fd slot false trace' d)
                    λ passed q. done (
                      (λ v c' f. ground (arith, q.1.1 code (pos index) s, p.0, f)),
                      λ j n. ground (arith, q.1.1 code (pos j) s, p.0, p.1 j n, n),
                    ))
        ]
    where
      id_written :
          (b : Bool) (trace : List Syscall) (v : ℤ)
          → trace ≡ write_event tp.fd (event_of ev_abs abs_mt_slot (pos index)) ∷ tp.trace
          → Ends os
              (λ t. (selected t ≡ pos index) × Keeps code index tp.trace t)
              (if b then send_event os tp.fd trace ev_abs abs_mt_tracking_id v else ok trace)
      id_written true trace v e =
          Ends-map (send_event-Ends os tp.fd trace ev_abs abs_mt_tracking_id v)
            λ t f. (rw (f, e) refl, λ j n. rw (f, e) (ground (arith, n, s)))
      id_written false trace v e = done (rw e refl, λ j n. rw e (ground (arith, s)))

  -- The slots from a number on, after their sync.
  abbrev AreDrawn : ℕ → List Slot → Touchpad → Touchpad → Type 0
  AreDrawn index slots tp tp' =
      ((j : ℕ) → suc j ≤ index → reported code (pos j) tp'.trace ≡ reported code (pos j) tp.trace)
      × ((i : ℕ) (slot : Slot)
          → get_elem? slots i ≡ some slot
          → IsDrawn tp.region slot code (index + i) tp'.trace)

  step-AreDrawn :
      (index : ℕ) (slot : Slot) (slots : List Slot) (tp mid tp' : Touchpad)
      → mid.region ≡ tp.region
      → IsDrawn tp.region slot code index mid.trace
      → Keeps code index tp.trace mid.trace
      → AreDrawn (suc index) slots mid tp'
      → AreDrawn index (slot ∷ slots) tp tp'
  step-AreDrawn index slot slots tp mid tp' rg d k (below, rest) =
      ((λ j l. below j (omega arith) ∙ k j (ground arith)), drawn)
    where
      drawn :
          (i : ℕ) (slot' : Slot)
          → get_elem? (slot ∷ slots) i ≡ some slot'
          → IsDrawn tp.region slot' code (index + i) tp'.trace
      drawn zero slot' g v c f = ground (arith, g, below index, d v, c, f)
      drawn (suc i) slot' g v c f = ground (arith, rest i slot' g v, rg, c, f)

  sync_slots-AreDrawn :
      (index : ℕ) (slots : List Slot) (count : ℕ) (tp : Touchpad)
      → All Distinct slots
      → index + length slots ≤ length tp.slot_memberships
      → Ends os (λ r. AreDrawn index slots tp r.1) (sync_slots os index slots count tp)
  unfolding sync_slots
  sync_slots-AreDrawn index [] count tp d h = done ((λ j l. refl), λ i slot g. absurd (cc g))
  sync_slots-AreDrawn index (slot ∷ slots) count tp d h =
      let (member, e) = get_elem?-some tp.slot_memberships index (omega arith) in
      rw (e, sync_slots)
        (Ends-bind
          (Ends-both (sync_slot-Ends os index slot member tp d.0)
            (sync_slot-IsDrawn index slot member tp d.0))
          λ synced (p, q).
            Ends-map
              (sync_slots-AreDrawn (suc index) slots (if synced.0 then count + 1 else count)
                synced.1 d.1
                (omega (
                  arith,
                  ap (λ t. length t.slot_memberships) p.1,
                  length-modify tp.slot_memberships index (λ _. contains tp.region slot),
                )))
              λ r w.
                step-AreDrawn index slot slots tp synced.1 r.1 (ap (λ t. t.region) p.1) q.0 q.1 w)

  -- Buttons move no axis.
  btn_events-reported :
      (n : ℕ) (tp : Touchpad)
      → Ends os
          (λ tp'. (i : ℕ) → reported code (pos i) tp'.trace ≡ reported code (pos i) tp.trace)
          (send_touchpad_btn_events os n tp)
  unfolding send_touchpad_btn_events
  btn_events-reported n tp =
      Ends-bind (send_event-Ends os tp.fd tp.trace ev_key btn_touch _) λ t1 e1.
        Ends-bind (send_event-Ends os tp.fd t1 ev_key btn_tool_finger _) λ t2 e2.
          Ends-bind (send_event-Ends os tp.fd t2 ev_key btn_tool_doubletap _) λ t3 e3.
            Ends-bind (send_event-Ends os tp.fd t3 ev_key btn_tool_tripletap _) λ t4 e4.
              Ends-bind (send_event-Ends os tp.fd t4 ev_key btn_tool_quadtap _)
                λ t5 e5. done λ i. rw (e5, e4, e3, e2, e1) refl

-- At the end of a frame, on a matched FakeTouchpad, each axis that is passed on is shown as its
-- source on the turned sensor, in every slot whose contact is in the region and has a value for it;
-- or a write was incomplete.
pub round_draws :
    (os : Os) (ev : InputEvent) (tp : Touchpad)
    → IsMatched tp
    → (is_report ev && not tp.sm.dropping_events) ≡ true
    → (code : ℕ) → IsPassed code
    → Ends os
        (λ tp'.
          (i : ℕ) (slot : Slot)
          → get_elem? tp.sm.slots i ≡ some slot
          → IsDrawn tp.region slot code i tp'.trace)
        (round os ev tp)
unfolding round sync_touch_events
round_draws os ev tp v w code s =
    let (c, t, u) = add_event_complete tp.sm ev none in
    let e = c ∙ w in
    rw (e, (t e).0)
      (Ends-bind (sync_slots-AreDrawn os code s 0 tp.sm.slots 0 tp v.slots (omega (arith, v.size)))
        λ r d. Ends-bind (btn_events-reported os code s r.0 r.1) λ p q.
          Ends-bind (send_event-Ends os p.fd p.trace ev_syn syn_report (pos 0))
            λ trace x. done λ i slot g f h k. rw x (ground (arith, q i, d.1 i slot g f h k)))

drawn-shown :
    (g : Region) (slot : Slot) (code i : ℕ) (trace : List Syscall) (v : ℤ)
    → IsPassed code
    → contains g slot ≡ true
    → find (axis (source_code g code)) slot ≡ some v
    → IsDrawn g slot code i trace
    → reported code (pos i) trace ≡ shown g slot code
unfolding find_value_by_event
drawn-shown g slot code i trace v s c f d =
    ground (arith, d v c f, f, to_region-value_shown g (axis (source_code g code)) code v s refl)

-- Both positions of a contact have a source if it has both coordinates.
position_source :
    (g : Region) (slot : Slot) (code : ℕ) (x y : ℤ)
    → find (axis abs_mt_position_x) slot ≡ some x
    → find (axis abs_mt_position_y) slot ≡ some y
    → (code == abs_mt_position_x || code == abs_mt_position_y) ≡ true
    → (v : ℤ) × (find (axis (source_code g code)) slot ≡ some v)
position_source g slot code x y fx fy p =
    elim (Bool-cases (source_code g code == abs_mt_position_x)) [
      | inl e ↦ (x, ground (arith, e, fx))
      | inr e ↦ (y, ground (arith, e, fy, p))
    ]

-- On a sensor with a supported rotation, at the end of a frame, a contact in the region that has
-- both coordinates is shown within the size that the axes of the virtual device were declared with;
-- or a write was incomplete.
pub round_draws_in_range :
    (os : Os) (ev : InputEvent) (tp : Touchpad) (i : ℕ) (slot : Slot) (x y : ℤ)
    → IsMatched tp
    → (is_report ev && not tp.sm.dropping_events) ≡ true
    → is_supported_rotation tp.region.rotation ≡ true
    → get_elem? tp.sm.slots i ≡ some slot
    → contains tp.region slot ≡ true
    → find (axis abs_mt_position_x) slot ≡ some x
    → find (axis abs_mt_position_y) slot ≡ some y
    → Ends os
        (λ tp'.
          (pos 0 ≤ℤ reported abs_mt_position_x (pos i) tp'.trace)
          × (reported abs_mt_position_x (pos i) tp'.trace ≤ℤ (declared_size tp.region).0)
          × (pos 0 ≤ℤ reported abs_mt_position_y (pos i) tp'.trace)
          × (reported abs_mt_position_y (pos i) tp'.trace ≤ℤ (declared_size tp.region).1))
        (round os ev tp)
unfolding find_value_by_event
round_draws_in_range os ev tp i slot x y v w r g c fx fy =
    let b = shown_bounds tp.region slot r c in
    Ends-map
      (Ends-both (round_draws os ev tp v w abs_mt_position_x refl)
        (round_draws os ev tp v w abs_mt_position_y refl))
      λ tp' (dx, dy).
        let (vx, sx) = position_source tp.region slot abs_mt_position_x x y fx fy refl in
        let (vy, sy) = position_source tp.region slot abs_mt_position_y x y fx fy refl in
        let ex =
          drawn-shown tp.region slot abs_mt_position_x i tp'.trace vx refl c sx (dx i slot g) in
        let ey =
          drawn-shown tp.region slot abs_mt_position_y i tp'.trace vy refl c sy (dy i slot g) in
        rw (ex, ey) b

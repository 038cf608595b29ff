-- ===== src/Touchpad/Slots.antt =====
-- The sync of one slot: it leaves the region, or enters it and is passed through.
use halo_keyboard.Prelude.{
  ℕ, ℤ, pos, negsuc, ◌≡◌, refl, Bool, true, false, not, ◌&&◌, List, ◌∷◌, Option, none, some,
  Bool-cases, inl, inr, Distinct, find, arith, ◌==◌, if◌then◌else◌,
}
use halo_keyboard.Input.{ev_abs, abs_mt_slot, abs_mt_tracking_id}
use halo_keyboard.System.{Syscall, Os, ok, write_event}
use halo_keyboard.Uinput.{event_of, send_event}
use halo_keyboard.Uinput.Writes.{Ends, Ends-bind, Ends-map, send_event-Ends, done}
use halo_keyboard.Multitouch.EventKey.{event_key_eq}
use halo_keyboard.Multitouch.Slot.{Slot, find_value_by_event}
use halo_keyboard.Touchpad.Region.{Region, Touchpad, contains, to_region}
use halo_keyboard.Touchpad.Sync.{sync_slot, set_membership}
use halo_keyboard.Touchpad.Kernel.{selected, reported}
use halo_keyboard.Touchpad.Passing.{
  axis, source_code, value_shown, either, is_current, pass_events_through-Ends,
}

abbrev pub tracking_of : Slot → Option ℤ
tracking_of slot = find (axis abs_mt_tracking_id) slot

-- A contact that SyncTouchEvents counts.
abbrev pub is_present : Region → Slot → Bool
is_present g slot = contains g slot && is_current (tracking_of slot)

-- The tracking id of a slot of the device after a sync: of a slot in the region, that of the
-- source, if it has one; else a slot that was no member of the region, or is none now, holds no
-- contact.
abbrev pub id_after : Region → Slot → Bool → ℤ → ℤ
id_after g slot member old =
    if contains g slot
    then either (tracking_of slot) (if member then old else negsuc 0) (λ v. v)
    else if member
    then negsuc 0
    else old

-- What a sync of one slot changes.
abbrev pub IsSynced : ℕ → Slot → Bool → Touchpad → Bool × Touchpad → Type 0
IsSynced index slot member tp r =
    (r.0 ≡ is_present tp.region slot)
    × (r.1 ≡ set_membership index (contains tp.region slot) r.1.trace tp)
    × ((i : ℕ)
        → reported abs_mt_tracking_id (pos i) r.1.trace ≡ (
            if index == i
            then id_after tp.region slot member (reported abs_mt_tracking_id (pos i) tp.trace)
            else reported abs_mt_tracking_id (pos i) tp.trace))

outside-Ends :
    (os : Os) (index : ℕ) (slot : Slot) (member : Bool) (tp : Touchpad) (trace : List Syscall)
    → contains tp.region slot ≡ false
    → trace ≡ write_event tp.fd (event_of ev_abs abs_mt_slot (pos index)) ∷ tp.trace
    → Ends os
        (λ trace'.
          (i : ℕ)
          → reported abs_mt_tracking_id (pos i) trace' ≡ (
              if index == i
              then id_after tp.region slot member (reported abs_mt_tracking_id (pos i) tp.trace)
              else reported abs_mt_tracking_id (pos i) tp.trace))
        (if member
          then send_event os tp.fd trace ev_abs abs_mt_tracking_id (negsuc 0)
          else ok trace)
outside-Ends os index slot true tp trace c e =
    Ends-map (send_event-Ends os tp.fd trace ev_abs abs_mt_tracking_id (negsuc 0))
      λ trace' f i. rw (f, e, c) (ground arith)
outside-Ends os index slot false tp trace c e = done λ i. rw (e, c) (ground arith)

-- The slot is selected, and a new member of the region has its source's tracking id.
abbrev IsEntered : ℕ → Slot → Bool → Touchpad → List Syscall → Type 0
IsEntered index slot member tp trace =
    (selected trace ≡ pos index)
    × ((i : ℕ)
        → reported abs_mt_tracking_id (pos i) trace ≡ (
            if index == i && not member
            then find_value_by_event slot ev_abs abs_mt_tracking_id
            else reported abs_mt_tracking_id (pos i) tp.trace))

enter-Ends :
    (os : Os) (index : ℕ) (slot : Slot) (member : Bool) (tp : Touchpad) (trace : List Syscall)
    → trace ≡ write_event tp.fd (event_of ev_abs abs_mt_slot (pos index)) ∷ tp.trace
    → Ends os (IsEntered index slot member tp) (
        if not member
        then send_event os tp.fd trace ev_abs abs_mt_tracking_id
            (find_value_by_event slot ev_abs abs_mt_tracking_id)
        else ok trace)
enter-Ends os index slot true tp trace e = done (rw e refl, λ i. rw e (ground arith))
enter-Ends os index slot false tp trace e =
    Ends-map
      (send_event-Ends os tp.fd trace ev_abs abs_mt_tracking_id
        (find_value_by_event slot ev_abs abs_mt_tracking_id))
      λ trace' f. (rw (f, e) refl, λ i. rw (f, e) (ground arith))

tracking_source :
    (g : Region) (slot : Slot)
    → find (axis (source_code g abs_mt_tracking_id)) slot ≡ tracking_of slot
tracking_source g slot = ground arith

tracking_shown : (g : Region) (v : ℤ) → value_shown g abs_mt_tracking_id v ≡ v
unfolding to_region
tracking_shown g v = ground arith

either-shown :
    (g : Region) (o : Option ℤ) (old : ℤ)
    → either o old (value_shown g abs_mt_tracking_id) ≡ either o old (λ v. v)
either-shown g none old = refl
either-shown g (some v) old = tracking_shown g v

pub sync_slot-Ends :
    (os : Os) (index : ℕ) (slot : Slot) (member : Bool) (tp : Touchpad)
    → Distinct slot
    → Ends os (IsSynced index slot member tp) (sync_slot os index slot member tp)
unfolding sync_slot find_value_by_event
sync_slot-Ends os index slot member tp d =
    Ends-bind (send_event-Ends os tp.fd tp.trace ev_abs abs_mt_slot (pos index)) λ trace e.
      elim (Bool-cases (contains tp.region slot)) [
        | inr c ↦ rw c (
            Ends-bind (outside-Ends os index slot member tp trace c e)
              λ trace' p. done (ground arith, rw c refl, p))
        | inl c ↦ rw c (
            Ends-bind (enter-Ends os index slot member tp trace e) λ trace' p.
              Ends-bind (pass_events_through-Ends os tp.region tp.fd slot false trace' d)
                λ passed q. done (
                  ground arith,
                  rw c refl,
                  λ i. ground (
                    arith,
                    c,
                    p.0,
                    p.1 i,
                    q.1.1 abs_mt_tracking_id (pos i) refl,
                    tracking_source tp.region slot,
                    either-shown tp.region (tracking_of slot)
                        (reported abs_mt_tracking_id (pos i) trace'),
                  ),
                ))
      ]

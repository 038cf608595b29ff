-- ===== src/Touchpad/Syncing.antt =====
-- SyncTouchEvents: the virtual device shows the contacts of the region and no other.
use halo_keyboard.Prelude.{
  ℕ, zero, suc, ℤ, pos, negsuc, ◌+◌, ◌≤◌, ◌≡◌, refl, Bool, true, false, List, [], ◌∷◌, Option, some,
  ap, ◌∙◌, Distinct, arith, All, count_if, get_elem?, get_elem?-modify, get_elem?-some,
  get_elem?-length, length, length-modify, apply_some, ◌==◌, if◌then◌else◌,
}
use halo_keyboard.Input.{abs_mt_tracking_id}
use halo_keyboard.System.{Os}
use halo_keyboard.Uinput.Writes.{Ends, Ends-bind, Ends-map, done}
use halo_keyboard.Multitouch.EventKey.{event_key_eq}
use halo_keyboard.Multitouch.Slot.{Slot}
use halo_keyboard.Touchpad.Region.{Touchpad, contains}
use halo_keyboard.Touchpad.Sync.{sync_slots, sync_touch_events}
use halo_keyboard.Touchpad.Kernel.{reported}
use halo_keyboard.Touchpad.Slots.{tracking_of, is_present, id_after, IsSynced, sync_slot-Ends}

abbrev pub member_at : Touchpad → ℕ → Option Bool
member_at tp i = get_elem? tp.slot_memberships i

abbrev pub id_at : Touchpad → ℕ → ℤ
id_at tp i = reported abs_mt_tracking_id (pos i) tp.trace

-- What a sync of the slots from a number on changes.
abbrev AreSynced : ℕ → List Slot → ℕ → Touchpad → ℕ × Touchpad → Type 0
AreSynced index slots count tp r =
    (r.1 ≡ record tp { slot_memberships = r.1.slot_memberships; trace = r.1.trace })
    × (r.0 ≡ count + count_if (is_present tp.region) slots)
    × ((j : ℕ) → suc j ≤ index → (member_at r.1 j ≡ member_at tp j) × (id_at r.1 j ≡ id_at tp j))
    × ((i : ℕ) (slot : Slot) (member : Bool)
        → get_elem? slots i ≡ some slot
        → member_at tp (index + i) ≡ some member
        → (member_at r.1 (index + i) ≡ some (contains tp.region slot))
          × (id_at r.1 (index + i) ≡ id_after tp.region slot member (id_at tp (index + i))))
    × (length r.1.slot_memberships ≡ length tp.slot_memberships)

step-AreSynced :
    (index : ℕ) (slot : Slot) (member : Bool) (slots : List Slot) (count : ℕ) (tp : Touchpad)
    (synced : Bool × Touchpad) (r : ℕ × Touchpad)
    → member_at tp index ≡ some member
    → IsSynced index slot member tp synced
    → AreSynced (suc index) slots (if synced.0 then count + 1 else count) synced.1 r
    → AreSynced index (slot ∷ slots) count tp r
step-AreSynced index slot member slots count tp synced r h (a, b, c) (e, n, f, k, z) = (
  e
      ∙ ap {A = Touchpad} {B = Touchpad}
          (λ t. record t { slot_memberships = r.1.slot_memberships; trace = r.1.trace }) b,
  ground (arith, n, rg, a),
  (λ j l. ground (arith, f j, mb j, c j)),
  rest,
  z
      ∙ ap (λ t. length t.slot_memberships) b
      ∙ length-modify tp.slot_memberships index (λ _. contains tp.region slot),
)
  where
    rg : synced.1.region ≡ tp.region
    rg = ap (λ t. t.region) b

    mb :
        (j : ℕ)
        → member_at synced.1 j ≡ (
            if index == j
            then apply_some (λ _. contains tp.region slot) (member_at tp j)
            else member_at tp j)
    mb j =
        ap (λ t. member_at t j) b
        ∙ get_elem?-modify tp.slot_memberships index j (λ _. contains tp.region slot)

    rest :
        (i : ℕ) (slot' : Slot) (member' : Bool)
        → get_elem? (slot ∷ slots) i ≡ some slot'
        → member_at tp (index + i) ≡ some member'
        → (member_at r.1 (index + i) ≡ some (contains tp.region slot'))
          × (id_at r.1 (index + i) ≡ id_after tp.region slot' member' (id_at tp (index + i)))
    rest zero slot' member' g m = ground (arith, g, m, h, f index, mb index, c index)
    rest (suc i) slot' member' g m =
        ground (arith, g, m, rg, k i slot' member', mb (suc index + i), c (suc index + i))

sync_slots-Ends :
    (os : Os) (index : ℕ) (slots : List Slot) (count : ℕ) (tp : Touchpad)
    → All Distinct slots
    → index + length slots ≤ length tp.slot_memberships
    → Ends os (AreSynced index slots count tp) (sync_slots os index slots count tp)
unfolding sync_slots
sync_slots-Ends os index [] count tp d h =
    done (refl, omega arith, (λ j l. (refl, refl)), (λ i slot member e. ground arith), refl)
sync_slots-Ends os index (slot ∷ slots) count tp d h =
    let (member, e) = get_elem?-some tp.slot_memberships index (omega arith) in
    rw (e, sync_slots)
      (Ends-bind (sync_slot-Ends os index slot member tp d.0) λ synced p.
        Ends-map
          (sync_slots-Ends os (suc index) slots (if synced.0 then count + 1 else count) synced.1 d.1
            (omega (
              arith,
              ap (λ t. length t.slot_memberships) p.1,
              length-modify tp.slot_memberships index (λ _. contains tp.region slot),
            )))
          λ r q. step-AreSynced index slot member slots count tp synced r e p q)

-- A slot that is no member of the region holds no contact on the virtual device.
abbrev pub IsMirror : Touchpad → Type 0
IsMirror tp = (i : ℕ) → member_at tp i ≡ some false → id_at tp i ≡ negsuc 0

-- A FakeTouchpad of well-formed slots, one membership for each, that is mirrored.
pub record IsMatched (tp : Touchpad) : Type 0 where
  pub slots : All Distinct tp.sm.slots
  pub size : length tp.slot_memberships ≡ length tp.sm.slots
  pub mirror : IsMirror tp

abbrev pub IsSync : Touchpad → ℕ × Touchpad → Type 0
IsSync tp r =
    (r.1 ≡ record tp { slot_memberships = r.1.slot_memberships; trace = r.1.trace })
    × (r.0 ≡ count_if (is_present tp.region) tp.sm.slots)
    × ((i : ℕ) (slot : Slot)
        → get_elem? tp.sm.slots i ≡ some slot
        → (member_at r.1 i ≡ some (contains tp.region slot))
          × (contains tp.region slot ≡ false → id_at r.1 i ≡ negsuc 0)
          × ((v : ℤ)
              → contains tp.region slot ≡ true
              → tracking_of slot ≡ some v
              → id_at r.1 i ≡ v))
    × (length r.1.slot_memberships ≡ length tp.slot_memberships)

-- SyncTouchEvents on a matched FakeTouchpad, which says that the values of each slot have distinct
-- keys, that there is one membership for each slot, and that no slot which is not a member holds a
-- contact on the virtual device: either a write was incomplete and its exception is thrown; or the
-- contacts of the region are counted, each slot is a member exactly if it lies in the region,
-- nothing else of the object has changed, and on the virtual device a slot outside the region holds
-- no contact, while one inside has the tracking id of the source, if that has one.
pub sync_touch_events-Ends :
    (os : Os) (tp : Touchpad) → IsMatched tp → Ends os (IsSync tp) (sync_touch_events os tp)
unfolding sync_touch_events
sync_touch_events-Ends os tp v =
    Ends-map (sync_slots-Ends os 0 tp.sm.slots 0 tp v.slots (omega (arith, v.size)))
      λ r (e, n, f, k, z). (
        e,
        omega (arith, n),
        (λ i slot g.
            let l = get_elem?-length tp.sm.slots i slot g in
            let (member, m) = get_elem?-some tp.slot_memberships i (omega (arith, l, v.size)) in
            let m' : member_at tp (0 + i) ≡ some member = ground (arith, m) in
            let s = k i slot member g m' in
            let o = v.mirror i in
            (
              ground (arith, s),
              (λ c. ground (arith, s, m, o, c)),
              λ w c t. ground (arith, s, c, t),
            )),
        z,
      )

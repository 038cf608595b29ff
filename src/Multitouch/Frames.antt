-- ===== src/Multitouch/Frames.antt =====
-- What a sequence of events leaves in an MtStateMachine, told from the events alone.
use halo_keyboard.Prelude.{
  ℕ, ◌||◌, ltb_ℤ, leb_ℤ, zero, suc, insert, not, ℤ, pos, negsuc, ◌≡◌, refl, ap, ◌∙◌, ◌<◌, Bool,
  true, false, ◌&&◌, List, [], ◌∷◌, ◌++◌, Option, none, some, map, arith, All, length, replicate,
  get_elem?, get_elem?-modify, get_elem?-some, find, find-insert, Bool-cases, inl, inr, pos_part,
  ◌==◌, ◌==ℤ◌, if◌then◌else◌,
}
use halo_keyboard.Input.{InputEvent, ev_syn, ev_abs, syn_report, syn_dropped}
use halo_keyboard.Multitouch.EventKey.{EventKey, event_key_eq, of_event, is_slot, equals}
use halo_keyboard.Multitouch.Slot.{Slot}
use halo_keyboard.Multitouch.StateMachine.{
  MtStateMachine, Snapshot, init, add_event, add_events, num_slots, slot, fill_snapshot,
}
use halo_keyboard.Multitouch.Validity.{IsValid, add_event-IsValid, init-IsValid}

abbrev pub is_drop : InputEvent → Bool
is_drop ev = ev.type == ev_syn && ev.code == syn_dropped

abbrev pub is_report : InputEvent → Bool
is_report ev = ev.type == ev_syn && ev.code == syn_report

-- Histories stand newest first. Whether the reader is out of step after one: from a SYN_DROPPED to
-- the next SYN_REPORT.
unfoldable pub out_of_step : List InputEvent → Bool
out_of_step [] = false
out_of_step (ev ∷ h) = if is_drop ev then true else if is_report ev then false else out_of_step h

-- The slot that the last ABS_MT_SLOT event selects, -1 if there is no such slot.
unfoldable pub cursor : List InputEvent → ℤ
cursor [] = pos 0
cursor (ev ∷ h) =
    if is_drop ev
    then pos 0
    else if out_of_step h
    then cursor h
    else if is_slot (of_event ev)
    then (if ltb_ℤ ev.value (pos 0) || leb_ℤ (pos num_slots) ev.value then negsuc 0 else ev.value)
    else cursor h

-- Whether an event that comes after the history `h` writes axis `k` of slot `j`.
abbrev writes : InputEvent → List InputEvent → ℕ → EventKey → Bool
writes ev h j k =
    not (out_of_step h)
    && ev.type == ev_abs
    && not (is_slot (of_event ev))
    && cursor h ==ℤ pos j
    && equals (of_event ev) k

-- The value that was last written to axis `k` of slot `j`.
unfoldable pub written : List InputEvent → ℕ → EventKey → Option ℤ
written [] j k = none
written (ev ∷ h) j k =
    if is_drop ev then none else if writes ev h j k then some ev.value else written h j k

-- The machine after a history.
pub after : List InputEvent → MtStateMachine
after [] = init
after (ev ∷ h) = (add_event (after h) ev none).machine

pub slot_value : MtStateMachine → ℕ → EventKey → Option ℤ
unfolding slot
slot_value sm j k = elim (slot sm j) [ none ↦ none | some s ↦ find k s ]

after-IsValid : (h : List InputEvent) → IsValid (after h)
unfolding after
after-IsValid [] = init-IsValid
after-IsValid (ev ∷ h) = add_event-IsValid (after h) ev none (after-IsValid h)

after-out_of_step : (h : List InputEvent) → (after h).dropping_events ≡ out_of_step h
unfolding after out_of_step add_event
after-out_of_step [] = refl
after-out_of_step (ev ∷ h) = ground (arith, after-out_of_step h)

after-cursor : (h : List InputEvent) → (after h).current_slot ≡ cursor h
unfolding after cursor add_event
after-cursor [] = refl
after-cursor (ev ∷ h) = ground (arith, after-cursor h, after-out_of_step h)

get_elem?-cleared :
    (ss : List Slot) (j : ℕ) (k : EventKey)
    → elim (get_elem? (map {B = Slot} (λ _. []) ss) j) as (λ _. Option ℤ) [
      | none ↦ none
      | some s ↦ find k s
    ]
      ≡ none
unfolding find
get_elem?-cleared [] j k = refl
get_elem?-cleared (s ∷ ss) zero k = refl
get_elem?-cleared (s ∷ ss) (suc j) k = get_elem?-cleared ss j k

get_elem?-empty :
    (n j : ℕ) (k : EventKey)
    → elim (get_elem? (replicate {A = Slot} n []) j) as (λ _. Option ℤ) [
      | none ↦ none
      | some s ↦ find k s
    ]
      ≡ none
unfolding find
get_elem?-empty zero j k = refl
get_elem?-empty (suc n) zero k = refl
get_elem?-empty (suc n) (suc j) k = get_elem?-empty n j k

-- One event changes the value of an axis of a slot exactly as `written` says.
slot_value-add_event :
    (ev : InputEvent) (h : List InputEvent) (j : ℕ) (k : EventKey)
    → j < num_slots
    → slot_value (after h) j k ≡ written h j k
    → slot_value (after (ev ∷ h)) j k ≡ written (ev ∷ h) j k
unfolding slot_value written add_event after
slot_value-add_event ev h j k lt ih =
    let sm = after h in
    let v = after-IsValid h in
    let (s, e) = get_elem?-some sm.slots j (omega (arith, v.size)) in
    ground (
      arith,
      v.above,
      v.below,
      e,
      after-cursor h,
      after-out_of_step h,
      get_elem?-cleared sm.slots j k,
      get_elem?-modify sm.slots (pos_part sm.current_slot) j (insert (of_event ev) ev.value),
      find-insert (of_event ev) k ev.value s,
    )

-- After any events, each of the kNumSlots slots holds on each axis the value that was last written
-- to it since the last SYN_DROPPED.
pub slot_value-after :
    (h : List InputEvent) (j : ℕ) (k : EventKey)
    → j < num_slots
    → slot_value (after h) j k ≡ written h j k
slot_value-after [] j k lt = unfold after written slot_value slot in get_elem?-empty num_slots j k
slot_value-after (ev ∷ h) j k lt = slot_value-add_event ev h j k lt (slot_value-after h j k lt)

-- A machine that has seen a SYN_DROPPED and nothing else.
abbrev dropped : MtStateMachine
dropped = record init { dropping_events = true }

cleared-replicate :
    (ss : List Slot) (n : ℕ) → length ss ≡ n → map {B = Slot} (λ _. []) ss ≡ replicate n []
cleared-replicate [] zero h = refl
cleared-replicate [] (suc n) h = absurd (omega arith)
cleared-replicate (s ∷ ss) zero h = absurd (omega arith)
cleared-replicate (s ∷ ss) (suc n) h = ap (◌∷◌ []) (cleared-replicate ss n (omega arith))

add_event-drop :
    (sm : MtStateMachine) (d : InputEvent) (out : Option Snapshot)
    → length sm.slots ≡ num_slots
    → is_drop d ≡ true
    → (add_event sm d out).machine ≡ dropped
unfolding add_event
add_event-drop sm d out v h = ground (arith, cleared-replicate sm.slots num_slots v)

add_event-dropped :
    (ev : InputEvent) → is_report ev ≡ false → (add_event dropped ev none).machine ≡ dropped
add_event-dropped ev h = elim (Bool-cases (is_drop ev)) [
  | inl d ↦ add_event-drop dropped ev none refl d
  | inr d ↦ unfold add_event in ground arith
]

add_event-report : (r : InputEvent) → is_report r ≡ true → (add_event dropped r none).machine ≡ init
unfolding add_event
add_event-report r h = ground arith

add_events-dropped :
    (r : InputEvent) (evs : List InputEvent)
    → is_report r ≡ true
    → All (λ ev. is_report ev ≡ false) evs
    → add_events dropped (evs ++ r ∷ []) ≡ init
unfolding add_events
add_events-dropped r [] h a = add_event-report r h
add_events-dropped r (ev ∷ evs) h a =
    ap (λ m. add_events m (evs ++ r ∷ [])) (add_event-dropped ev a.0)
    ∙ add_events-dropped r evs h a.1

-- A SYN_DROPPED, whatever is read up to the next SYN_REPORT, and that report, leave a well-formed
-- machine as it was when it was made: nothing of before the loss and nothing of the lost frame
-- stays.
pub add_events_resync :
    (sm : MtStateMachine) (d r : InputEvent) (evs : List InputEvent)
    → IsValid sm
    → is_drop d ≡ true
    → is_report r ≡ true
    → All (λ ev. is_report ev ≡ false) evs
    → add_events sm (d ∷ evs ++ r ∷ []) ≡ init
unfolding add_events
add_events_resync sm d r evs v hd hr a =
    ap (λ m. add_events m (evs ++ r ∷ [])) (add_event-drop sm d none v.size hd)
    ∙ add_events-dropped r evs hr a

-- AddEvent returns true exactly for a SYN_REPORT outside of a loss; the machine is then unchanged,
-- and a snapshot that was asked for holds the machine's fingers. When it returns false, the
-- caller's snapshot is as it was.
pub add_event_complete :
    (sm : MtStateMachine) (ev : InputEvent) (out : Option Snapshot)
    → ((add_event sm ev out).complete ≡ (is_report ev && not sm.dropping_events))
      × ((add_event sm ev out).complete ≡ true
          → ((add_event sm ev out).machine ≡ sm)
            × ((add_event sm ev out).out_snapshot ≡ elim out as (λ _. Option Snapshot) [
              | none ↦ none
              | some _ ↦ some (fill_snapshot sm)
            ]))
      × ((add_event sm ev out).complete ≡ false → (add_event sm ev out).out_snapshot ≡ out)
unfolding add_event
add_event_complete sm ev out = ground arith

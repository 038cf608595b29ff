-- ===== src/Touchpad/Plain.antt =====
-- A round of the touchpad loses no event and selects only slots that a reader has.
use halo_keyboard.Prelude.{
  ℕ, suc, ℤ, pos, negsuc, ◌+◌, ◌≤◌, ◌<◌, ◌≡◌, refl, ap, ◌∙◌, Bool, true, false, not, ◌&&◌, ◌||◌,
  List, [], ◌∷◌, none, Bool-cases, inl, inr, Distinct, arith, All, get_elem?-some, length,
  if◌then◌else◌, length-modify,
}
use halo_keyboard.Input.{
  InputEvent, ev_abs, ev_key, ev_syn, syn_report, abs_mt_slot, abs_mt_tracking_id, btn_touch,
  btn_tool_finger, btn_tool_doubletap, btn_tool_tripletap, btn_tool_quadtap,
}
use halo_keyboard.System.{Os, Syscall, write_event, Result, ok}
use halo_keyboard.Uinput.{event_of, send_event}
use halo_keyboard.Uinput.Writes.{Ends, Ends-bind, Ends-map, Ends-both, send_event-Ends, done}
use halo_keyboard.Multitouch.EventKey.{EventKey, event_key_eq, is_supported_for_touchpads}
use halo_keyboard.Multitouch.Slot.{Slot, find_value_by_event}
use halo_keyboard.Multitouch.StateMachine.{num_slots, slot}
use halo_keyboard.Multitouch.Frames.{is_report, add_event_complete}
use halo_keyboard.Touchpad.Region.{Region, Touchpad, contains, to_region}
use halo_keyboard.Touchpad.Sync.{
  send_value, makes_valid, pass_events_through, sync_slot, sync_slots, sync_touch_events,
  send_touchpad_btn_events, round,
}
use halo_keyboard.Touchpad.Buttons.{IsSteady, IsSteady-IsMatched}
use halo_keyboard.Touchpad.Slots.{sync_slot-Ends}
use halo_keyboard.Touchpad.Reading.{is_plain, IsPlain}

module _ (os : Os) where
  -- A computation on the touchpad keeps the trace plain.
  abbrev pub KeepsPlain : {A : Type 0} → (A → List Syscall) → List Syscall → Result A → Type 0
  KeepsPlain trace_of trace = Ends os (λ a. All IsPlain trace → All IsPlain (trace_of a))

  -- An event that is sent and is plain.
  send_plain :
      (fd : ℤ) (trace : List Syscall) (ev_type code : ℕ) (value : ℤ)
      → is_plain (write_event fd (event_of ev_type code value)) ≡ true
      → KeepsPlain (λ t. t) trace (send_event os fd trace ev_type code value)
  send_plain fd trace ev_type code value p =
      Ends-map (send_event-Ends os fd trace ev_type code value) λ t e h. rw e (p, h)

  send_value-KeepsPlain :
      (g : Region) (fd : ℤ) (key : EventKey) (value : ℤ) (trace : List Syscall)
      → KeepsPlain (λ t. t) trace (send_value os g fd key value trace)
  unfolding send_value to_region
  send_value-KeepsPlain g fd key value trace = elim (Bool-cases (is_supported_for_touchpads key)) [
    | inl s ↦
        rw (s, send_value)
          (send_plain fd trace key.type (to_region g key value).0 (to_region g key value).1
            (ground (arith, s)))
    | inr s ↦ rw (s, send_value) (done λ h. h)
  ]

  pass_events_through-KeepsPlain :
      (g : Region) (fd : ℤ) (slot : Slot) (valid : Bool) (trace : List Syscall)
      → KeepsPlain (λ r. r.1) trace (pass_events_through os g fd slot valid trace)
  unfolding pass_events_through
  pass_events_through-KeepsPlain g fd [] valid trace = done λ h. h
  pass_events_through-KeepsPlain g fd ((key, value) ∷ slot) valid trace =
      Ends-bind (send_value-KeepsPlain g fd key value trace) λ t k.
        Ends-map (pass_events_through-KeepsPlain g fd slot (valid || makes_valid key value) t)
          λ r q h. q (k h)

  id-KeepsPlain :
      (b : Bool) (fd : ℤ) (trace : List Syscall) (v : ℤ)
      → KeepsPlain
          (λ t. t)
          trace
          (if b then send_event os fd trace ev_abs abs_mt_tracking_id v else ok trace)
  id-KeepsPlain true fd trace v = send_plain fd trace ev_abs abs_mt_tracking_id v refl
  id-KeepsPlain false fd trace v = done λ h. h

  sync_slot-KeepsPlain :
      (index : ℕ) (slot : Slot) (member : Bool) (tp : Touchpad)
      → index < num_slots
      → KeepsPlain (λ r. r.1.trace) tp.trace (sync_slot os index slot member tp)
  unfolding sync_slot
  sync_slot-KeepsPlain index slot member tp l =
      Ends-bind (send_plain tp.fd tp.trace ev_abs abs_mt_slot (pos index) (ground arith)) λ trace p.
        elim (Bool-cases (contains tp.region slot)) [
          | inr c ↦
              rw c
                (Ends-bind (id-KeepsPlain member tp.fd trace (negsuc 0)) λ t q. done λ h. q (p h))
          | inl c ↦ rw c (
              Ends-bind
                (id-KeepsPlain (not member) tp.fd trace
                  (find_value_by_event slot ev_abs abs_mt_tracking_id))
                λ t q.
                  Ends-bind (pass_events_through-KeepsPlain tp.region tp.fd slot false t)
                    λ passed w. done λ h. w (q (p h)))
        ]

  sync_slots-KeepsPlain :
      (index : ℕ) (slots : List Slot) (count : ℕ) (tp : Touchpad)
      → All Distinct slots
      → index + length slots ≤ length tp.slot_memberships
      → index + length slots ≤ num_slots
      → KeepsPlain (λ r. r.1.trace) tp.trace (sync_slots os index slots count tp)
  unfolding sync_slots
  sync_slots-KeepsPlain index [] count tp d h l = done λ p. p
  sync_slots-KeepsPlain index (slot ∷ slots) count tp d h l =
      let (member, e) = get_elem?-some tp.slot_memberships index (omega arith) in
      rw (e, sync_slots)
        (Ends-bind
          (Ends-both (sync_slot-Ends os index slot member tp d.0)
            (sync_slot-KeepsPlain index slot member tp (omega arith)))
          λ synced (p, q).
            Ends-map
              (sync_slots-KeepsPlain (suc index) slots (if synced.0 then count + 1 else count)
                synced.1 d.1
                (omega (
                  arith,
                  ap (λ t. length t.slot_memberships) p.1,
                  length-modify tp.slot_memberships index (λ _. contains tp.region slot),
                ))
                (omega arith))
              λ r w h'. w (q h'))

  btn_events-KeepsPlain :
      (n : ℕ) (tp : Touchpad)
      → KeepsPlain (λ tp'. tp'.trace) tp.trace (send_touchpad_btn_events os n tp)
  unfolding send_touchpad_btn_events
  btn_events-KeepsPlain n tp =
      Ends-bind (send_plain tp.fd tp.trace ev_key btn_touch _ refl) λ t1 e1.
        Ends-bind (send_plain tp.fd t1 ev_key btn_tool_finger _ refl) λ t2 e2.
          Ends-bind (send_plain tp.fd t2 ev_key btn_tool_doubletap _ refl) λ t3 e3.
            Ends-bind (send_plain tp.fd t3 ev_key btn_tool_tripletap _ refl) λ t4 e4.
              Ends-bind (send_plain tp.fd t4 ev_key btn_tool_quadtap _ refl)
                λ t5 e5. done λ h. e5 (e4 (e3 (e2 (e1 h))))

  pub round-KeepsPlain :
      (ev : InputEvent) (tp : Touchpad)
      → IsSteady tp
      → (is_report ev && not tp.sm.dropping_events) ≡ true
      → KeepsPlain (λ tp'. tp'.trace) tp.trace (round os ev tp)
  unfolding round sync_touch_events
  round-KeepsPlain ev tp v w =
      let (c, t, u) = add_event_complete tp.sm ev none in
      let e = c ∙ w in
      rw (e, (t e).0)
        (Ends-bind
          (sync_slots-KeepsPlain 0 tp.sm.slots 0 tp (IsSteady-IsMatched tp v).slots
            (omega (arith, v.size)) (omega (arith, v.machine.size)))
          λ r d. Ends-bind (btn_events-KeepsPlain r.0 r.1) λ p q.
            Ends-bind (send_plain p.fd p.trace ev_syn syn_report (pos 0) refl)
              λ trace x. done λ h. x (q (d h)))

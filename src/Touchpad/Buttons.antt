-- ===== src/Touchpad/Buttons.antt =====
-- The buttons of the virtual touchpad and the rounds of FakeTouchpad::Consume.
use halo_keyboard.Prelude.{
  ℕ, ℤ, pos, negsuc, ◌≡◌, refl, true, false, not, ◌&&◌, List, ◌∷◌, none, some, Bool-cases, inl, inr,
  sym, ◌∙◌, ap, arith, All-map, count_if, length, get_elem?, get_elem?-some, get_elem?-length, ltb,
  ◌==◌,
}
use halo_keyboard.Input.{
  InputEvent, ev_syn, ev_key, syn_report, abs_mt_tracking_id, btn_touch, btn_tool_finger,
  btn_tool_doubletap, btn_tool_tripletap, btn_tool_quadtap,
}
use halo_keyboard.System.{Os, Syscall, write_event}
use halo_keyboard.Uinput.{event_of}
use halo_keyboard.Uinput.Writes.{Ends, Ends-bind, send_event-Ends, done}
use halo_keyboard.Multitouch.Slot.{Slot}
use halo_keyboard.Multitouch.StateMachine.{add_event}
use halo_keyboard.Multitouch.Validity.{IsValid, add_event-IsValid}
use halo_keyboard.Multitouch.Frames.{is_report, add_event_complete}
use halo_keyboard.Touchpad.Region.{Touchpad, contains}
use halo_keyboard.Touchpad.Sync.{one_or_zero, send_touchpad_btn_events, round}
use halo_keyboard.Touchpad.Kernel.{reported, pressed}
use halo_keyboard.Touchpad.Slots.{is_present, tracking_of}
use halo_keyboard.Touchpad.Syncing.{id_at, IsMirror, IsMatched, IsSync, sync_touch_events-Ends}

-- The buttons tell the number of contacts.
abbrev pub ArePressed : ℕ → List Syscall → Type 0
ArePressed n trace =
    (pressed btn_touch trace ≡ one_or_zero (ltb 0 n))
    × (pressed btn_tool_finger trace ≡ one_or_zero (n == 1))
    × (pressed btn_tool_doubletap trace ≡ one_or_zero (n == 2))
    × (pressed btn_tool_tripletap trace ≡ one_or_zero (n == 3))
    × (pressed btn_tool_quadtap trace ≡ one_or_zero (n == 4))

abbrev pub IsPressed : ℕ → Touchpad → Touchpad → Type 0
IsPressed n tp tp' =
    (tp' ≡ record tp { trace = tp'.trace })
    × ((i : ℕ) → id_at tp' i ≡ id_at tp i)
    × ArePressed n tp'.trace

pub send_touchpad_btn_events-Ends :
    (os : Os) (n : ℕ) (tp : Touchpad) → Ends os (IsPressed n tp) (send_touchpad_btn_events os n tp)
unfolding send_touchpad_btn_events
send_touchpad_btn_events-Ends os n tp =
    Ends-bind (send_event-Ends os tp.fd tp.trace ev_key btn_touch (one_or_zero (ltb 0 n))) λ t1 e1.
      Ends-bind (send_event-Ends os tp.fd t1 ev_key btn_tool_finger (one_or_zero (n == 1))) λ t2 e2.
        Ends-bind (send_event-Ends os tp.fd t2 ev_key btn_tool_doubletap (one_or_zero (n == 2)))
          λ t3 e3.
            Ends-bind (send_event-Ends os tp.fd t3 ev_key btn_tool_tripletap (one_or_zero (n == 3)))
              λ t4 e4.
                Ends-bind
                  (send_event-Ends os tp.fd t4 ev_key btn_tool_quadtap (one_or_zero (n == 4)))
                  λ t5 e5. done (
                    refl,
                    (λ i. rw (e5, e4, e3, e2, e1) refl),
                    rw (e5, e4, e3, e2, e1) (refl, refl, refl, refl, refl),
                  )

-- A FakeTouchpad with a well-formed state machine, one membership for each slot, and no contact on
-- the virtual device in a slot that is no member of the region.
pub record IsSteady (tp : Touchpad) : Type 0 where
  pub machine : IsValid tp.sm
  pub size : length tp.slot_memberships ≡ length tp.sm.slots
  pub mirror : IsMirror tp

pub IsSteady-IsMatched : (tp : Touchpad) → IsSteady tp → IsMatched tp
IsSteady-IsMatched tp v = record {
  slots = All-map _ _ tp.sm.slots (λ s a. a.0) v.machine.contents;
  size = v.size;
  mirror = v.mirror;
}

-- What the virtual device shows at the end of a frame.
abbrev pub IsInFrame : Touchpad → Touchpad → Type 0
IsInFrame tp tp' =
    ArePressed (count_if (is_present tp.region) tp.sm.slots) tp'.trace
    × ((i : ℕ) (slot : Slot)
        → get_elem? tp.sm.slots i ≡ some slot
        → (contains tp.region slot ≡ false → id_at tp' i ≡ negsuc 0)
          × ((v : ℤ)
              → contains tp.region slot ≡ true
              → tracking_of slot ≡ some v
              → id_at tp' i ≡ v))

synced-IsMirror : (tp : Touchpad) (r : ℕ × Touchpad) → IsMatched tp → IsSync tp r → IsMirror r.1
synced-IsMirror tp r v (e, n, k, z) i m =
    let l = get_elem?-length r.1.slot_memberships i false m in
    let (slot, g) = get_elem?-some tp.sm.slots i (omega (arith, l, z, v.size)) in
    ground (arith, k i slot g, m)

module _ (os : Os) (tp : Touchpad) (v : IsSteady tp) where
  framed :
      (r : ℕ × Touchpad) (pressed_tp : Touchpad) (trace : List Syscall)
      → IsSync tp r
      → IsPressed r.0 r.1 pressed_tp
      → trace ≡ write_event pressed_tp.fd (event_of ev_syn syn_report (pos 0)) ∷ pressed_tp.trace
      → IsSteady (record pressed_tp { trace = trace })
        × IsInFrame tp (record pressed_tp { trace = trace })
  framed r pressed_tp trace s (a, b, c) e =
      let sm : pressed_tp.sm ≡ tp.sm = ap (λ t. t.sm) a ∙ ap (λ t. t.sm) s.0 in
      let members : pressed_tp.slot_memberships ≡ r.1.slot_memberships =
        ap (λ t. t.slot_memberships) a in
      let ids : (i : ℕ) → reported abs_mt_tracking_id (pos i) trace ≡ id_at r.1 i =
        λ i. rw e (b i) in
      let m = synced-IsMirror tp r (IsSteady-IsMatched tp v) s in
      (
        record {
          machine = rw sm v.machine;
          size = ap length members ∙ s.3 ∙ v.size ∙ ap (λ t. length t.slots) (sym sm);
          mirror = λ i o. ids i ∙ m i (ap (λ ms. get_elem? ms i) (sym members) ∙ o);
        },
        (
          rw (e, sym s.1) c,
          λ i slot g. let k = s.2 i slot g in ((λ o. ids i ∙ k.1 o), λ w o t. ids i ∙ k.2 w o t),
        ),
      )

-- A round of Consume on a steady FakeTouchpad ends with a steady one, or with the exception of an
-- incomplete write. At the end of a frame the buttons tell the number of contacts in the region,
-- and on the virtual device no slot outside the region holds a contact, while one inside has the
-- tracking id of the source.
pub round_mirrors :
    (os : Os) (ev : InputEvent) (tp : Touchpad)
    → IsSteady tp
    → Ends os
        (λ tp'.
          IsSteady tp' × ((is_report ev && not tp.sm.dropping_events) ≡ true → IsInFrame tp tp'))
        (round os ev tp)
unfolding round
round_mirrors os ev tp v =
    let (c, t, u) = add_event_complete tp.sm ev none in
    let valid = add_event-IsValid tp.sm ev none v.machine in
    elim (Bool-cases (add_event tp.sm ev none).complete) [
      | inl e ↦
          rw (e, (t e).0)
            (Ends-bind (sync_touch_events-Ends os tp (IsSteady-IsMatched tp v)) λ r s.
              Ends-bind (send_touchpad_btn_events-Ends os r.0 r.1) λ p q.
                Ends-bind (send_event-Ends os p.fd p.trace ev_syn syn_report (pos 0))
                  λ trace w. let (a, b) = framed os tp v r p trace s q w in done (a, λ k. b))
      | inr e ↦ rw e (
          done (
            record {
              machine = valid;
              size = v.size ∙ v.machine.size ∙ sym valid.size;
              mirror = v.mirror;
            },
            λ k. cc (c, e, k),
          ))
    ]

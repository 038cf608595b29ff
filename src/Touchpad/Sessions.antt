-- ===== src/Touchpad/Sessions.antt =====
-- From the constructor of FakeTouchpad through Run: the set-up of the device and the loop of
-- Consume.
use Prim.Native.String.{String}
use mathlib.Core.Path.{subst}
use halo_keyboard.Prelude.{
  ℕ, ℤ, pos, negsuc, ◌≡◌, refl, ap, ◌∙◌, Bool, true, false, List, [], ◌∷◌, Option, none, some,
  Bool-cases, inl, inr, All, All-replicate, replicate, arith, suc, find, Distinct, sym, length,
}
use halo_keyboard.Input.{InputEvent, abs_mt_tracking_id, ev_key, ev_syn, syn_report}
use halo_keyboard.System.{
  Os, Syscall, open_file, close_file, write_event, ioctl, select_file, read_event, Result, ok,
  bind-ok, ok-injective, Safe, Safe-bind, Safe-map, Safe-ok, result, passed, Request,
  set_event_type,
}
use halo_keyboard.Uinput.Writes.{Ends-Safe, Ends, Ends-bind, Ends-both, done, send_event-Ends}
use halo_keyboard.Uinput.Device.{
  UinputDevice, enable_key_event, enable_event_type, create_uinput_fd, finalize_uinput_creation,
  copy_abs_output_events,
}
use halo_keyboard.Uinput.Calls.{
  open_source_device-All, create_uinput_fd-All, finalize_uinput_creation-All,
  copy_abs_output_events-All,
}
use halo_keyboard.Evdev.{no_timeout, open_source_device}
use halo_keyboard.Evdev.Polling.{IsPoll, read, waited, waited_and_read, get_next_event-Safe}
use halo_keyboard.Floating.{Floating, Arithmetic}
use halo_keyboard.Multitouch.StateMachine.{init, num_slots, add_event}
use halo_keyboard.Multitouch.Validity.{IsSlotValid, IsAxis}
use halo_keyboard.Touchpad.Region.{Region, Touchpad, declared_size}
use halo_keyboard.Touchpad.Layout.{Loaded, resolutions}
use halo_keyboard.Touchpad.Kernel.{reported}
use halo_keyboard.Touchpad.Sync.{round}
use halo_keyboard.Touchpad.Setup.{
  enable_buttons, enable_touchpad_buttons, touchpad_buttons, set_up, size_of,
}
use halo_keyboard.Touchpad.Buttons.{
  IsSteady, round_mirrors, send_touchpad_btn_events-Ends, IsSteady-IsMatched,
}
use halo_keyboard.Touchpad.Loop.{
  consume_once, Loop, enter, again, reordered, AreReordered, with_slots,
}
use halo_keyboard.Multitouch.Frames.{add_event_complete}
use halo_keyboard.Touchpad.Syncing.{sync_touch_events-Ends}
use halo_keyboard.Multitouch.EventKey.{EventKey, event_key_eq, equals_iff}
use halo_keyboard.Multitouch.Slot.{Slot}

-- A new FakeTouchpad once Run has set up its device.
abbrev pub new_touchpad : Region → ℤ → List Syscall → Touchpad
new_touchpad region fd trace = record {
  region = region;
  sm = init;
  slot_memberships = replicate num_slots false;
  fd = fd;
  trace = trace;
}

pub polled-IsSteady :
    (tp : Touchpad) (trace : List Syscall)
    → IsPoll tp.trace trace
    → IsSteady tp
    → IsSteady (record tp { trace = trace })
polled-IsSteady tp trace (read fd) v = record {
  machine = v.machine;
  size = v.size;
  mirror = v.mirror;
}
polled-IsSteady tp trace (waited n sec usec) v = record {
  machine = v.machine;
  size = v.size;
  mirror = v.mirror;
}
polled-IsSteady tp trace (waited_and_read fd n sec usec) v = record {
  machine = v.machine;
  size = v.size;
  mirror = v.mirror;
}

-- The region is set once.
round-region :
    (os : Os) (ev : InputEvent) (tp : Touchpad)
    → IsSteady tp
    → Ends os (λ tp'. tp'.region ≡ tp.region) (round os ev tp)
unfolding round
round-region os ev tp v =
    let (c, t, u) = add_event_complete tp.sm ev none in
    elim (Bool-cases (add_event tp.sm ev none).complete) [
      | inl e ↦
          rw (e, (t e).0)
            (Ends-bind (sync_touch_events-Ends os tp (IsSteady-IsMatched tp v)) λ r s.
              Ends-bind (send_touchpad_btn_events-Ends os r.0 r.1) λ p q.
                Ends-bind (send_event-Ends os p.fd p.trace ev_syn syn_report (pos 0))
                  λ trace w. done (ap (λ t. t.region) q.0 ∙ ap (λ t. t.region) s.0))
      | inr e ↦ rw e (done refl)
    ]

abbrev Follows : Touchpad → Touchpad → Type 0
Follows tp tp' = IsSteady tp' × (tp'.region ≡ tp.region)

-- Whatever the system answers, the body of the loop of Consume, on a steady FakeTouchpad, ends with
-- a steady FakeTouchpad that has the same region, or with an exception for a call of the system
-- that failed: never with an index out of range nor in undefined behaviour.
pub consume_once-IsSteady :
    (os : Os) (source_fd : ℤ) (tp : Touchpad)
    → IsSteady tp
    → Safe (Follows tp) (consume_once os source_fd tp)
unfolding consume_once
consume_once-IsSteady os source_fd tp v =
    Safe-bind (get_next_event-Safe os source_fd no_timeout tp.trace refl) λ polled e p.
      handled polled.0 (record tp { trace = polled.1 }) refl (polled-IsSteady tp polled.1 p v)
  where
    handled :
        (o : Option InputEvent) (t : Touchpad)
        → t.region ≡ tp.region
        → IsSteady t
        → Safe
            (Follows tp)
            (elim o as (λ _. Result Touchpad) [ none ↦ ok t | some ev ↦ round os ev t ])
    handled none t g w = result (w, g)
    handled (some ev) t g w =
        Safe-map (Ends-Safe (Ends-both (round_mirrors os ev t w) (round-region os ev t w)))
          λ t' r. (r.0.0, r.1 ∙ g)

IsAxis-found : (k : EventKey) (v : ℤ) (s : Slot) → All IsAxis s → find k s ≡ some v → IsAxis (k, v)
unfolding find
IsAxis-found k v [] a e = absurd (cc e)
IsAxis-found k v ((j, w) ∷ s) a e = elim (Bool-cases (event_key_eq.beq j k)) [
  | inl m ↦ ground (arith, a.0, e, m, equals_iff j k)
  | inr m ↦ IsAxis-found k v s a.1 (ground (arith, e, m))
]

found-IsAxis :
    (s : Slot)
    → Distinct s
    → ((k : EventKey) (v : ℤ) → find k s ≡ some v → IsAxis (k, v))
    → All IsAxis s
unfolding find
found-IsAxis [] d h = tt
found-IsAxis ((j, w) ∷ s) d h = (
  h j w (ground (arith, equals_iff j j)),
  found-IsAxis s d.1 λ k v e. h k v (ground (arith, e, d.0, equals_iff j k)),
)

AreReordered-IsSlotValid :
    (ss ss' : List Slot)
    → AreReordered ss ss'
    → All IsSlotValid ss
    → All IsSlotValid ss' × (length ss' ≡ length ss)
AreReordered-IsSlotValid [] [] r a = (tt, refl)
AreReordered-IsSlotValid [] (s' ∷ ss') r a = absurd r
AreReordered-IsSlotValid (s ∷ ss) [] r a = absurd r
AreReordered-IsSlotValid (s ∷ ss) (s' ∷ ss') (r, rs) (a, as_valid) =
    let (v, l) = AreReordered-IsSlotValid ss ss' rs as_valid in
    (((r.0, found-IsAxis s' r.0 λ k w e. IsAxis-found k w s a.1 (sym (r.1 k) ∙ e)), v), ap suc l)

reordered-IsSteady :
    (tp : Touchpad) (slots : List Slot)
    → AreReordered tp.sm.slots slots
    → IsSteady tp
    → IsSteady (with_slots tp slots)
reordered-IsSteady tp slots r v =
    let (contents, l) = AreReordered-IsSlotValid tp.sm.slots slots r v.machine.contents in
    record {
      machine = record {
        size = l ∙ v.machine.size;
        above = v.machine.above;
        below = v.machine.below;
        contents = contents;
      };
      size = v.size ∙ sym l;
      mirror = v.mirror;
    }

pub Loop-IsSteady :
    {os : Os} {source_fd : ℤ} {tp t : Touchpad}
    → IsSteady tp
    → Loop os source_fd tp t
    → Follows tp t
Loop-IsSteady v enter = (v, refl)
Loop-IsSteady {os} {source_fd} v (again {t = t} l e) =
    let (w, g) = Loop-IsSteady v l in
    let (w', g') = Safe-ok (consume_once-IsSteady os source_fd t w) e in (w', g' ∙ g)
Loop-IsSteady v (reordered {t = t} l slots r) =
    let (w, g) = Loop-IsSteady v l in (reordered-IsSteady t slots r w, g)

-- No event was written.
abbrev pub is_quiet : Syscall → Bool
is_quiet (open_file path) = true
is_quiet (close_file fd) = true
is_quiet (ioctl fd request) = true
is_quiet (select_file nfds sec usec) = true
is_quiet (read_event fd) = true
is_quiet (write_event fd ev) = false

abbrev pub IsQuiet : Syscall → Type 0
IsQuiet call = is_quiet call ≡ true

quiet-reported :
    (code : ℕ) (slot : ℤ) (trace : List Syscall)
    → All IsQuiet trace
    → reported code slot trace ≡ negsuc 0
quiet-reported code slot [] h = refl
quiet-reported code slot (open_file path ∷ trace) h = quiet-reported code slot trace h.1
quiet-reported code slot (close_file fd ∷ trace) h = quiet-reported code slot trace h.1
quiet-reported code slot (ioctl fd request ∷ trace) h = quiet-reported code slot trace h.1
quiet-reported code slot (select_file n sec usec ∷ trace) h = quiet-reported code slot trace h.1
quiet-reported code slot (read_event fd ∷ trace) h = quiet-reported code slot trace h.1
quiet-reported code slot (write_event fd ev ∷ trace) h = absurd (cc h.0)

enable_buttons-IsQuiet :
    (os : Os) (fd : ℤ) (buttons : List ℕ) (trace : List Syscall)
    → All IsQuiet trace
    → All IsQuiet (enable_buttons os fd buttons trace).0
unfolding enable_buttons enable_key_event
enable_buttons-IsQuiet os fd [] trace h = h
enable_buttons-IsQuiet os fd (button ∷ buttons) trace h =
    elim (Bool-cases (enable_key_event os fd button trace).1) [
      | inl e ↦ rw (e, enable_buttons) (enable_buttons-IsQuiet os fd buttons _ (refl, h))
      | inr e ↦ rw (e, enable_buttons) (refl, h)
    ]

enable_touchpad_buttons-IsQuiet :
    (os : Os) (fd : ℤ) (trace : List Syscall)
    → All IsQuiet trace
    → All IsQuiet (enable_touchpad_buttons os fd trace).0
unfolding enable_touchpad_buttons enable_event_type
enable_touchpad_buttons-IsQuiet os fd trace h =
    elim (Bool-cases (enable_event_type os fd ev_key trace).1) [
      | inl e ↦
          rw (e, enable_touchpad_buttons)
            (enable_buttons-IsQuiet os fd touchpad_buttons
              (ioctl fd (set_event_type ev_key) ∷ trace) (refl, h))
      | inr e ↦ rw (e, enable_touchpad_buttons) (refl, h)
    ]

pub set_up-IsQuiet :
    (F : Floating) (A : Arithmetic F) (os : Os) (path name : String) (loaded : Loaded F.Double)
    (source_fd fd : ℤ) (device d : UinputDevice) (t : List Syscall)
    → set_up F A os path name loaded source_fd device [] ≡ ok (fd, d, t)
    → All IsQuiet t
unfolding set_up
set_up-IsQuiet F A os path name loaded source_fd fd device d t e =
    let (opened, o, e1) = bind-ok (open_source_device os path source_fd []) _ (fd, d, t) e in
    let c = create_uinput_fd os device opened.0.1 in
    let b = enable_touchpad_buttons os c.0.uinput_fd c.1 in
    let size = declared_size loaded.region in
    let (_, e2) = passed opened.1 _ _ (fd, d, t) e1 in
    let (_, e3) = passed c.2 _ _ (fd, d, t) e2 in
    let (_, e4) = passed b.1 _ _ (fd, d, t) e3 in
    let (res, _, e5) = bind-ok (resolutions F A loaded size) _ (fd, d, t) e4 in
    let k = copy_abs_output_events os c.0.uinput_fd opened.0.0 (size_of size res) b.0 in
    let n = finalize_uinput_creation os c.0 name k.0 in
    let (_, e6) = passed k.1 _ _ (fd, d, t) e5 in
    let (_, e7) = passed n.2 _ _ (fd, d, t) e6 in
    let q : n.1 ≡ t = ap (λ r. r.2) (ok-injective e7) in
    subst (All IsQuiet) q (
      finalize_uinput_creation-All IsQuiet opens requests os c.0 name k.0 (
        copy_abs_output_events-All IsQuiet opens requests os c.0.uinput_fd opened.0.0
          (size_of size res) b.0
          (enable_touchpad_buttons-IsQuiet os c.0.uinput_fd c.1 (
            create_uinput_fd-All IsQuiet opens requests os device opened.0.1
              (open_source_device-All IsQuiet opens requests os path source_fd [] opened o tt)))))
  where
    opens : (path : String) → IsQuiet (open_file path)
    opens path = refl

    requests : (fd : ℤ) (r : Request) → IsQuiet (ioctl fd r)
    requests fd r = refl

pub new_touchpad-IsSteady :
    (g : Region) (fd : ℤ) (t : List Syscall) → All IsQuiet t → IsSteady (new_touchpad g fd t)
new_touchpad-IsSteady g fd t h = record {
  machine = record {
    size = refl;
    above = omega arith;
    below = omega arith;
    contents = All-replicate IsSlotValid num_slots [] (tt, tt);
  };
  size = refl;
  mirror = λ i e. quiet-reported abs_mt_tracking_id (pos i) t h;
}

-- ===== src/Keyboard/Sessions.antt =====
-- From the constructor of FakeKeyboard through Run: the set-up of the device and the loop of
-- Consume.
use Prim.Native.String.{String}
use mathlib.Core.Path.{subst}
use halo_keyboard.Prelude.{
  ℕ, ℤ, pos, ◌%◌, ◌^◌, ◌≡◌, refl, sym, ap, ◌∙◌, Bool, true, false, List, [], ◌∷◌, Bool-cases, inl,
  inr, All, arith, count_if, All-map, ==ℤ_iff, ◌==ℤ◌,
}
use halo_keyboard.Input.{ev_key}
use halo_keyboard.System.{
  Os, Syscall, ioctl, create_device, set_up_device, set_event_type, ok, bind-ok,
}
use halo_keyboard.Floating.{Floating, Arithmetic}
use halo_keyboard.Csv.{Csv}
use halo_keyboard.Hardware.{HardwareConfig}
use halo_keyboard.Haptics.Manager.{TouchFfManager}
use halo_keyboard.Multitouch.StateMachine.{init}
use halo_keyboard.Uinput.Device.{
  UinputDevice, create_uinput_fd, enable_key_event, enable_event_type, finalize_uinput_creation,
}
use halo_keyboard.Evdev.{open_source_device}
use halo_keyboard.Keyboard.Key.{Key}
use halo_keyboard.Keyboard.State.{Keyboard}
use halo_keyboard.Keyboard.Fingers.{code_of_key}
use halo_keyboard.Keyboard.Layout.{LayoutRow, make_layout}
use halo_keyboard.Keyboard.Layouts.{IsUsable, make_layout-IsUsable}
use halo_keyboard.Keyboard.Setup.{enable_key, enable_keys, enable_keyboard_events, set_up}
use halo_keyboard.Keyboard.Codes.{
  is_key_enabled, is_key_offered, IsKeyEnabled, enable_keyboard_events-IsKeyEnabled,
}
use halo_keyboard.Keyboard.Coded.{IsHonest, IsKeyAllowed}
use halo_keyboard.Keyboard.Balance.{is_sent}
use halo_keyboard.Keyboard.Soundness.{IsSound}
use halo_keyboard.Keyboard.Runs.{quiet-IsSound}
use halo_keyboard.Keyboard.Loop.{Loop}
use halo_keyboard.Keyboard.Progress.{Loop-IsSound}
use halo_keyboard.Keyboard.Typing.{Loop-IsCoded}
use halo_keyboard.Uinput.Calls.{create_uinput_fd-All, open_source_device-All}

-- A new FakeKeyboard once Run has set up its device.
abbrev pub new_keyboard : TouchFfManager → List Key → ℤ → List Syscall → Keyboard
new_keyboard ff_manager layout fd trace = record {
  ff_manager = ff_manager;
  layout = layout;
  sm = init;
  pending_events = [];
  finger_data = [];
  fn_key_pressed = false;
  fd = fd;
  trace = trace;
}

module _ (allowed : ℕ → Bool) (os : Os) (fd : ℤ) where
  enable_keys-IsHonest :
      (layout : List Key) (trace : List Syscall)
      → All (IsHonest allowed) trace
      → All (IsHonest allowed) (enable_keys os fd layout trace).0
  unfolding enable_keys enable_key enable_key_event
  enable_keys-IsHonest [] trace h = h
  enable_keys-IsHonest (key ∷ layout) trace h =
      let k : All (IsHonest allowed) (enable_key os fd key trace).0 = ground (arith, h) in
      elim (Bool-cases (enable_key os fd key trace).1) [
        | inl e ↦ rw (e, enable_keys) (enable_keys-IsHonest layout _ k)
        | inr e ↦ rw (e, enable_keys) k
      ]

  enable_keyboard_events-IsHonest :
      (layout : List Key) (trace : List Syscall)
      → All (IsHonest allowed) trace
      → All (IsHonest allowed) (enable_keyboard_events os fd layout trace).0
  unfolding enable_keyboard_events enable_event_type
  enable_keyboard_events-IsHonest layout trace h =
      ground
        (arith, h, enable_keys-IsHonest layout (ioctl fd (set_event_type ev_key) ∷ trace) (refl, h))

-- UI_DEV_CREATE succeeds after UI_DEV_SETUP.
abbrev IsCreated : Os → ℤ → String → List Syscall → Type 0
IsCreated os fd name trace =
    ((os (ioctl fd (set_up_device name) ∷ trace) (ioctl fd create_device)).ret ==ℤ pos 0) ≡ true

finalize_steps :
    (os : Os) (d : UinputDevice) (name : String) (trace : List Syscall)
    → (finalize_uinput_creation os d name trace).2 ≡ true
    → ((finalize_uinput_creation os d name trace).0.uinput_fd ≡ d.uinput_fd)
      × ((finalize_uinput_creation os d name trace).1
          ≡ ioctl d.uinput_fd create_device ∷ ioctl d.uinput_fd (set_up_device name) ∷ trace)
      × IsCreated os d.uinput_fd name trace
unfolding finalize_uinput_creation
finalize_steps os d name trace e = (ground (arith, e), ground (arith, e), ground (arith, e))

-- What Run has done when it calls Consume.
set_up_steps :
    (os : Os) (path name : String) (layout : List Key) (source_fd : ℤ) (device d : UinputDevice)
    (trace t : List Syscall) (fd : ℤ)
    → set_up os path name layout source_fd device trace ≡ ok (fd, d, t)
    → (t1 : List Syscall) × ((enable_keyboard_events os d.uinput_fd layout t1).1 ≡ true)
      × (t
          ≡ ioctl d.uinput_fd create_device
            ∷ ioctl d.uinput_fd (set_up_device name)
            ∷ (enable_keyboard_events os d.uinput_fd layout t1).0)
      × IsCreated os d.uinput_fd name (enable_keyboard_events os d.uinput_fd layout t1).0
      × ((allowed : ℕ → Bool) → All (IsHonest allowed) trace → All (IsHonest allowed) t1)
unfolding set_up
set_up_steps os path name layout source_fd device d trace t fd e =
    let (opened, o, f) = bind-ok (open_source_device os path source_fd trace) _ (fd, d, t) e in
    let c = create_uinput_fd os device opened.0.1 in
    let k = enable_keyboard_events os c.0.uinput_fd layout c.1 in
    let n = finalize_uinput_creation os c.0 name k.0 in
    let ok2 : k.1 ≡ true = ground (arith, f) in
    let ok3 : n.2 ≡ true = ground (arith, f) in
    let qd : n.0 ≡ d = ground (arith, f) in
    let qt : n.1 ≡ t = ground (arith, f) in
    let (a, b, made) = finalize_steps os c.0 name k.0 ok3 in
    let q : c.0.uinput_fd ≡ d.uinput_fd = sym a ∙ ap (λ d. d.uinput_fd) qd in
    (
      c.1,
      subst (λ u. (enable_keyboard_events os u layout c.1).1 ≡ true) q ok2,
      subst
          (λ u.
            t
            ≡ ioctl u create_device
              ∷ ioctl u (set_up_device name)
              ∷ (enable_keyboard_events os u layout c.1).0)
          q (sym qt ∙ b),
      subst (λ u. IsCreated os u name (enable_keyboard_events os u layout c.1).0) q made,
      λ allowed h.
          create_uinput_fd-All (IsHonest allowed) (λ path. refl) (λ fd r. refl) os device opened.0.1
            (open_source_device-All (IsHonest allowed) (λ path. refl) (λ fd r. refl) os path
              source_fd trace opened o h),
    )

code_of_key-bound :
    (fn : Bool) (key : Key) → IsUsable key → code_of_key fn key % 2 ^ 16 ≡ code_of_key fn key
code_of_key-bound fn key u = ground (arith, u.code_bound, u.code_fn_bound)

allowed-keys :
    (os : Os) (fd : ℤ) (t t' : List Syscall) (layout : List Key)
    → ((code : ℕ) → is_key_enabled os fd code t ≡ true → is_key_offered os fd code t' ≡ true)
    → All IsUsable layout
    → All (IsKeyEnabled os fd t) layout
    → All (IsKeyAllowed (λ c. is_key_offered os fd c t')) layout
allowed-keys os fd t t' [] k u h = tt
allowed-keys os fd t t' (key ∷ layout) k u h = (
  (λ fn. rw (code_of_key-bound fn key u.0) (k _ (h.0 fn))),
  allowed-keys os fd t t' layout k u.1 h.1,
)

no_key_sent :
    (c : ℕ) (v : ℤ) (trace : List Syscall)
    → All (IsHonest (λ c. false)) trace
    → count_if (is_sent c v) trace ≡ 0
no_key_sent c v [] h = refl
no_key_sent c v (call ∷ trace) h = ground (arith, h.0, no_key_sent c v trace h.1)

new_keyboard-IsSound :
    (ff_manager : TouchFfManager) (layout : List Key) (fd : ℤ) (t : List Syscall)
    → All (IsHonest (λ c. false)) t
    → IsSound (new_keyboard ff_manager layout fd t)
new_keyboard-IsSound ff_manager layout fd t h =
    quiet-IsSound (new_keyboard ff_manager layout fd t) refl refl
      λ c. no_key_sent c (pos 1) t h ∙ sym (no_key_sent c (pos 0) t h)

honest_weaken :
    (allowed : ℕ → Bool) (call : Syscall) → IsHonest (λ c. false) call → IsHonest allowed call
honest_weaken allowed call h = ground (arith, h)

-- After calls that sent no key event: a FakeKeyboard that was constructed from a layout file, has
-- set up its device and has looped in Consume is sound, and sends enabled codes.
pub session_sends_enabled :
    (F : Floating) (A : Arithmetic F) (config : HardwareConfig F) (csv : Csv (LayoutRow F.Double))
    (os : Os) (layout_path path name : String) (layout : List Key) (ff_manager : TouchFfManager)
    (device d : UinputDevice) (source_fd fd : ℤ) (trace t : List Syscall) (k : Keyboard)
    → All (IsHonest (λ c. false)) trace
    → make_layout F A layout_path config csv ≡ ok layout
    → set_up os path name layout source_fd device trace ≡ ok (fd, d, t)
    → Loop os fd (new_keyboard ff_manager layout d.uinput_fd t) k
    → IsSound k × All (IsHonest (λ c. is_key_offered os d.uinput_fd c t)) k.trace
session_sends_enabled F A config csv os layout_path path name layout ff_manager device d source_fd
      fd trace t k n m s r =
    let allowed : ℕ → Bool = λ c. is_key_offered os d.uinput_fd c t in
    let (t1, e, q, made, h) = set_up_steps os path name layout source_fd device d trace t fd s in
    let enabled = enable_keyboard_events os d.uinput_fd layout t1 in
    let honest : (allowed : ℕ → Bool) → All (IsHonest allowed) t = λ allowed.
      subst (All (IsHonest allowed)) (sym q) (
        refl,
        (
          refl,
          enable_keyboard_events-IsHonest allowed os d.uinput_fd layout t1
              (h allowed (All-map _ _ trace (honest_weaken allowed) n)),
        ),
      ) in
    (
      Loop-IsSound (new_keyboard-IsSound ff_manager layout d.uinput_fd t (honest (λ c. false))) r,
      (Loop-IsCoded allowed os
          (record {
            keys =
                allowed-keys os d.uinput_fd enabled.0 t layout
                  (λ c g.
                    subst (λ t. is_key_offered os d.uinput_fd c t ≡ true) (sym q)
                      (ground (arith, g, made, ==ℤ_iff d.uinput_fd d.uinput_fd)))
                  (make_layout-IsUsable F A layout_path config csv layout m).0
                  (enable_keyboard_events-IsKeyEnabled os d.uinput_fd layout t1 e);
            events = tt;
            fingers = tt;
            calls = honest allowed;
          })
          r).calls,
    )

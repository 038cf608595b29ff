-- ===== src/Keyboard/Codes.antt =====
-- EnableKeyboardEvents: every code that the keyboard can send is enabled on its device.
use mathlib.Core.Path.{subst}
use halo_keyboard.Prelude.{
  ℕ, ℤ, ◌≡◌, refl, sym, ap, ◌∙◌, Bool, true, false, ◌&&◌, ◌||◌, List, [], ◌∷◌, Option, none, some,
  Bool-cases, inl, inr, arith, All, ◌==◌, ◌==ℤ◌, ==_iff, ==ℤ_iff, pos,
}
use halo_keyboard.Input.{ev_key}
use halo_keyboard.System.{Os, Syscall, ioctl, Request, set_key, set_event_type, create_device}
use halo_keyboard.Uinput.Device.{enable_key_event, enable_event_type}
use halo_keyboard.Keyboard.Key.{Key}
use halo_keyboard.Keyboard.Fingers.{code_of_key}
use halo_keyboard.Keyboard.Setup.{enable_key, enable_keys, enable_keyboard_events}

abbrev key_of : Request → Option ℕ
key_of (set_key code) = some code
key_of _ = none

abbrev is_code : ℕ → Option ℕ → Bool
is_code code none = false
is_code code (some c) = c == code

abbrev succeeded : Os → List Syscall → ℤ → Request → Bool
succeeded os trace fd r = (os trace (ioctl fd r)).ret ==ℤ pos 0

-- UI_SET_KEYBIT has succeeded for the key code on the device `fd`.
abbrev pub is_key_enabled : Os → ℤ → ℕ → List Syscall → Bool
is_key_enabled os fd code [] = false
is_key_enabled os fd code (ioctl f r ∷ trace) =
    (f ==ℤ fd && is_code code (key_of r) && succeeded os trace f r)
    || is_key_enabled os fd code trace
is_key_enabled os fd code (_ ∷ trace) = is_key_enabled os fd code trace

abbrev is_creation : Request → Bool
is_creation create_device = true
is_creation _ = false

-- UI_DEV_CREATE has succeeded on the device `fd` after UI_SET_KEYBIT had succeeded for the key
-- code.
abbrev pub is_key_offered : Os → ℤ → ℕ → List Syscall → Bool
is_key_offered os fd code [] = false
is_key_offered os fd code (ioctl f r ∷ trace) =
    (f ==ℤ fd && is_creation r && succeeded os trace f r && is_key_enabled os fd code trace)
    || is_key_offered os fd code trace
is_key_offered os fd code (_ ∷ trace) = is_key_offered os fd code trace

-- Both codes of the key can be sent, with Fn pressed or not.
abbrev pub IsKeyEnabled : Os → ℤ → List Syscall → Key → Type 0
IsKeyEnabled os fd trace key = (fn : Bool) → is_key_enabled os fd (code_of_key fn key) trace ≡ true

abbrev Keeps : Os → ℤ → List Syscall → List Syscall → Type 0
Keeps os fd trace trace' =
    (code : ℕ) → is_key_enabled os fd code trace ≡ true → is_key_enabled os fd code trace' ≡ true

module _ (os : Os) (fd : ℤ) where
  enable_key-Keeps :
      (key : Key) (trace : List Syscall) → Keeps os fd trace (enable_key os fd key trace).0
  unfolding enable_key enable_key_event
  enable_key-Keeps key trace code h = ground (arith, h)

  enable_key-IsKeyEnabled :
      (key : Key) (trace : List Syscall)
      → (enable_key os fd key trace).1 ≡ true
      → IsKeyEnabled os fd (enable_key os fd key trace).0 key
  unfolding enable_key enable_key_event
  enable_key-IsKeyEnabled key trace s fn =
      ground (arith, s, ==ℤ_iff fd fd, ==_iff key.event_code key.event_code)

  proceed :
      (key : Key) (layout : List Key) (trace : List Syscall)
      → (enable_key os fd key trace).1 ≡ true
      → enable_keys os fd (key ∷ layout) trace
        ≡ enable_keys os fd layout (enable_key os fd key trace).0
  unfolding enable_keys
  proceed key layout trace k = rw (k, enable_keys) refl

  enable_keys-IsKeyEnabled :
      (layout : List Key) (trace : List Syscall)
      → (enable_keys os fd layout trace).1 ≡ true
      → Keeps os fd trace (enable_keys os fd layout trace).0
        × All (IsKeyEnabled os fd (enable_keys os fd layout trace).0) layout
  unfolding enable_keys
  enable_keys-IsKeyEnabled [] trace s = ((λ code h. h), tt)
  enable_keys-IsKeyEnabled (key ∷ layout) trace s =
      elim (Bool-cases (enable_key os fd key trace).1) [
        | inr k ↦ absurd (ground (arith, s, k))
        | inl k ↦
            (let q = proceed key layout trace k in
              let (keeps, all) =
                enable_keys-IsKeyEnabled layout (enable_key os fd key trace).0
                  (ap (λ r. r.1) (sym q) ∙ s) in
              subst (λ r. Keeps os fd trace r.0 × All (IsKeyEnabled os fd r.0) (key ∷ layout))
                (sym q)
                (
                  (λ code h. keeps code (enable_key-Keeps key trace code h)),
                  (
                    (λ fn. keeps (code_of_key fn key) (enable_key-IsKeyEnabled key trace k fn)),
                    all,
                  ),
                ))
      ]

  -- When EnableKeyboardEvents returns true, UI_SET_KEYBIT has succeeded on the device for both
  -- codes of every key of the layout: that is, for whatever code a finger on a key is given, with
  -- Fn pressed or not.
  pub enable_keyboard_events-IsKeyEnabled :
      (layout : List Key) (trace : List Syscall)
      → (enable_keyboard_events os fd layout trace).1 ≡ true
      → All (IsKeyEnabled os fd (enable_keyboard_events os fd layout trace).0) layout
  unfolding enable_keyboard_events enable_event_type
  enable_keyboard_events-IsKeyEnabled layout trace s =
      let typed = ioctl fd (set_event_type ev_key) ∷ trace in
      let q : enable_keyboard_events os fd layout trace ≡ enable_keys os fd layout typed =
        ground (arith, s) in
      subst (λ r. All (IsKeyEnabled os fd r.0) layout) (sym q)
        (enable_keys-IsKeyEnabled layout typed (ap (λ r. r.1) (sym q) ∙ s)).1

-- ===== src/Supervisor/Typing.antt =====
-- The keyboard worker, from the body that main gives it to the loop of Consume.
use Prim.Native.String.{String}
use mathlib.Core.Path.{subst}
use halo_keyboard.Prelude.{ℤ, ◌≡◌, refl, sym, ap, false, [], All}
use halo_keyboard.System.{Os, ok, bind-ok, ok-injective}
use halo_keyboard.Floating.{Floating, Arithmetic}
use halo_keyboard.Csv.{Csv}
use halo_keyboard.Hardware.{HardwareConfig}
use halo_keyboard.Options.{Options}
use halo_keyboard.Haptics.Upload.{make_manager}
use halo_keyboard.Haptics.Calls.{make_manager-All}
use halo_keyboard.Uinput.Device.{init}
use halo_keyboard.Evdev
use halo_keyboard.Keyboard.State.{Keyboard}
use halo_keyboard.Keyboard.Layout.{LayoutRow, make_layout}
use halo_keyboard.Keyboard.Setup.{set_up}
use halo_keyboard.Keyboard.Soundness.{IsSound}
use halo_keyboard.Keyboard.Codes.{is_key_offered}
use halo_keyboard.Keyboard.Coded.{IsHonest}
use halo_keyboard.Keyboard.Loop.{Loop}
use halo_keyboard.Keyboard.Sessions.{new_keyboard, session_sends_enabled}
use halo_keyboard.Supervisor.Children.{start_keyboard, touch_sensor_device_path}

-- With any system, any files and any clock, while the frames that it polls can be reported: the
-- keyboard worker, once it loops in Consume, is sound in every state, and every key event that it
-- has written has a code for which UI_SET_KEYBIT had succeeded on its device before UI_DEV_CREATE
-- succeeded there.
pub keyboard_worker_sends_enabled :
    (F : Floating) (A : Arithmetic F) (os : Os) (config : HardwareConfig F) (options : Options F)
    (layout_path : String) (csv : Csv (LayoutRow F.Double)) (source_fd : ℤ) (kb k : Keyboard)
    → start_keyboard F A os config options layout_path csv ≡ ok (source_fd, kb)
    → Loop os source_fd kb k
    → IsSound k × All (IsHonest (λ c. is_key_offered os kb.fd c kb.trace)) k.trace
unfolding start_keyboard
keyboard_worker_sends_enabled F A os config options layout_path csv source_fd kb k e l =
    let (haptics, h, e1) =
      bind-ok
        (make_manager F os config.res_x config.res_y config.rotation options.haptic_magnitude
          options.haptic_duration_ms [])
        _ (source_fd, kb) e in
    let (layout, m, e2) = bind-ok (make_layout F A layout_path config csv) _ (source_fd, kb) e1 in
    let (started, s, e3) =
      bind-ok (set_up os touch_sensor_device_path "Halo Keyboard" layout Evdev.init init haptics.1)
        _ (source_fd, kb) e2 in
    let new = new_keyboard haptics.0 layout started.1.uinput_fd started.2 in
    let fd_is : started.0 ≡ source_fd = ap (λ r. r.0) (ok-injective e3) in
    let kb_is : new ≡ kb = ap (λ r. r.1) (ok-injective e3) in
    subst
      (λ kb'.
        Loop os source_fd kb' k
        → IsSound k × All (IsHonest (λ c. is_key_offered os kb'.fd c kb'.trace)) k.trace)
      kb_is
      (λ l'.
        session_sends_enabled F A config csv os layout_path touch_sensor_device_path "Halo Keyboard"
          layout haptics.0 init started.1 Evdev.init started.0 haptics.1 started.2 k
          (make_manager-All F os (IsHonest (λ c. false)) (λ path. refl) (λ fd. refl) (λ fd r. refl)
            (λ fd. refl) config.res_x config.res_y config.rotation options.haptic_magnitude
            options.haptic_duration_ms [] haptics h tt)
          m s (subst (λ fd. Loop os fd new k) (sym fd_is) l'))
      l

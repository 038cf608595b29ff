-- ===== src/Supervisor/Children.antt =====
-- The bodies of the two workers that main starts, up to the loops of Consume.
use Prim.Native.String.{String}
use halo_keyboard.Prelude.{ℤ, []}
use halo_keyboard.System.{Os, Result, ok, ◌>>=◌}
use halo_keyboard.Floating.{Floating, Arithmetic}
use halo_keyboard.Csv.{Csv}
use halo_keyboard.Hardware.{HardwareConfig}
use halo_keyboard.Options.{Options}
use halo_keyboard.Haptics.Upload.{make_manager}
use halo_keyboard.Uinput.Device.{init}
use halo_keyboard.Evdev
use halo_keyboard.Keyboard.State.{Keyboard}
use halo_keyboard.Keyboard.Layout as KeyboardLayout
use halo_keyboard.Keyboard.Layout.{LayoutRow}
use halo_keyboard.Keyboard.Setup as KeyboardSetup
use halo_keyboard.Keyboard.Sessions.{new_keyboard}
use halo_keyboard.Touchpad.Region.{Touchpad}
use halo_keyboard.Touchpad.Layout as TouchpadLayout
use halo_keyboard.Touchpad.Layout.{TouchpadRow}
use halo_keyboard.Touchpad.Setup as TouchpadSetup
use halo_keyboard.Touchpad.Sessions.{new_touchpad}

abbrev pub touch_sensor_device_path : String
touch_sensor_device_path = "/dev/halo_keyboard"

module _ (F : Floating) (A : Arithmetic F) where
  -- The body of the keyboard worker up to the call of Consume: the sensor and the new object.
  unfoldable pub start_keyboard :
      Os → HardwareConfig F → Options F → String → Csv (LayoutRow F.Double) → Result (ℤ × Keyboard)
  start_keyboard os config options layout_path csv = do
    haptics ←
        make_manager F os config.res_x config.res_y config.rotation options.haptic_magnitude
          options.haptic_duration_ms []
    layout ← KeyboardLayout.make_layout F A layout_path config csv
    started ←
        KeyboardSetup.set_up os touch_sensor_device_path "Halo Keyboard" layout Evdev.init init
          haptics.1
    ok (started.0, new_keyboard haptics.0 layout started.1.uinput_fd started.2)

  -- The same of the touchpad worker.
  unfoldable pub start_touchpad :
      Os → HardwareConfig F → String → Csv (TouchpadRow F.Double) → Result (ℤ × Touchpad)
  start_touchpad os config layout_path csv = do
    loaded ← TouchpadLayout.make_layout F A layout_path config csv
    started ←
        TouchpadSetup.set_up F A os touch_sensor_device_path "Halo Keyboard Touchpad" loaded
          Evdev.init init []
    ok (started.0, new_touchpad loaded.region started.1.uinput_fd started.2)

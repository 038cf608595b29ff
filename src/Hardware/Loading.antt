-- ===== src/Hardware/Loading.antt =====
-- What a loaded configuration is good for.
use Prim.Native.String.{String}
use halo_keyboard.Prelude.{
  ℤ, pos, ◌<ℤ◌, ◌≤ℤ◌, ◌≡◌, true, false, ◌||◌, List, Option, none, some, arith, ◌==ℤ◌, if◌then◌else◌,
}
use halo_keyboard.System.{Os, Syscall, Result, ok, err}
use halo_keyboard.Floating.{Floating}
use halo_keyboard.Hardware.{HardwareConfig, is_supported_rotation, validate, load_hardware_config}
use halo_keyboard.Haptics.Manager.{TouchFfManager}
use halo_keyboard.Haptics.Upload.{make_manager, start_drivers}

module _ (F : Floating) where
  pub record IsUsable (config : HardwareConfig F) : Type 0 where
    pub wide : pos 0 <ℤ config.res_x
    pub high : pos 0 <ℤ config.res_y
    pub turned : is_supported_rotation config.rotation ≡ true

  load_hardware_config-IsUsable :
      (path : String) (row : Result (Option (HardwareConfig F))) (config : HardwareConfig F)
      → load_hardware_config F path row ≡ ok config
      → IsUsable config
  unfolding load_hardware_config validate
  load_hardware_config-IsUsable path (err failure) config e = absurd (ground (arith, e))
  load_hardware_config-IsUsable path (ok none) config e = absurd (ground (arith, e))
  load_hardware_config-IsUsable path (ok (some c)) config e = record {
    wide = ground (arith, e);
    high = ground (arith, e);
    turned = ground (arith, e);
  }

  -- With a configuration that LoadHardwareConfig returned, and with a finite magnitude from 0 to 1
  -- and a duration from 1 to 1000 ms, the constructor of TouchFFManager does not throw.
  pub make_manager_loaded :
      (path : String) (row : Result (Option (HardwareConfig F))) (config : HardwareConfig F)
      (os : Os) (magnitude : F.Double) (duration_ms : ℤ) (trace : List Syscall)
      → load_hardware_config F path row ≡ ok config
      → F.is_finite magnitude ≡ true
      → F.is_negative magnitude ≡ false
      → F.exceeds_one magnitude ≡ false
      → pos 1 ≤ℤ duration_ms
      → duration_ms ≤ℤ pos 1000
      → (r : TouchFfManager × List Syscall) × (make_manager F os config.res_x config.res_y
            config.rotation magnitude duration_ms trace
          ≡ ok r)
  unfolding make_manager
  make_manager_loaded path row config os magnitude duration_ms trace e f n o a b =
      let u = load_hardware_config-IsUsable path row config e in
      let width =
        if config.rotation ==ℤ pos 0 || config.rotation ==ℤ pos 180
        then config.res_x
        else config.res_y in
      (
        start_drivers F os width config.rotation magnitude duration_ms trace,
        ground (arith, f, n, o, u.wide, u.high, u.turned),
      )

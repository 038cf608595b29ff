-- ===== src/Hardware/Examples.antt =====
-- Instances of the theorems on the configuration.
use halo_keyboard.Prelude.{ℤ, pos, ◌≡◌, refl, true, List, [], some, ltb_ℤ, leb_ℤ, arith}
use halo_keyboard.System.{Os, Syscall, nothing, ok}
use halo_keyboard.Floating.{Floating}
use halo_keyboard.Hardware.{HardwareConfig, load_hardware_config, validate}
use halo_keyboard.Hardware.Loading.{make_manager_loaded}
use halo_keyboard.Haptics.Manager.{TouchFfManager}
use halo_keyboard.Haptics.Upload.{make_manager}

-- Whole numbers.
abbrev whole : Floating
whole = record {
  Double = ℤ;
  Single = ℤ;
  is_finite = λ x. true;
  is_negative = λ x. ltb_ℤ x (pos 0);
  is_not_positive = λ x. leb_ℤ x (pos 0);
  exceeds_one = λ x. ltb_ℤ (pos 1) x;
  is_finite_single = λ x. true;
  is_negative_single = λ x. ltb_ℤ x (pos 0);
  exceeds_one_single = λ x. ltb_ℤ (pos 1) x;
  to_single = λ x. x;
  strong_magnitude = λ x. 0;
}

abbrev os : Os
os trace call = record { ret = pos 0; errno = 0; filled = nothing }

abbrev config : HardwareConfig whole
config = record {
  rotation = pos 270;
  res_x = pos 1080;
  res_y = pos 1920;
  width_mm = pos 120;
  height_mm = pos 215;
  left_margin_mm = pos 0;
  top_margin_mm = pos 3;
}

loaded : load_hardware_config whole "hardware.csv" (ok (some config)) ≡ ok config
unfolding load_hardware_config validate
loaded = refl

make_manager_loaded_example :
    (r : TouchFfManager × List Syscall) × (make_manager whole os
        (pos 1080)
        (pos 1920)
        (pos 270)
        (pos 1)
        (pos 12)
        []
      ≡ ok r)
make_manager_loaded_example =
    make_manager_loaded whole "hardware.csv" (ok (some config)) config os (pos 1) (pos 12) [] loaded
      refl refl refl (omega arith) (omega arith)

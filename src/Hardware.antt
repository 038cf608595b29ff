-- ===== src/Hardware.antt =====
-- hardware_config.h and hardware_config.cc: the configuration of the sensor.
pub mod Loading
pub mod Scale
mod Examples
use Prim.Native.String.{String}
use Prim.Native.String
use halo_keyboard.Prelude.{ℤ, pos, Bool, not, ◌||◌, Option, none, some, leb_ℤ, ◌==ℤ◌, if◌then◌else◌}
use halo_keyboard.System.{Result, ok, err, runtime_error, ◌>>=◌}
use halo_keyboard.Floating.{Floating, Arithmetic}

pub record HardwareConfig (F : Floating) : Type 0 where
  pub rotation : ℤ
  pub res_x : ℤ
  pub res_y : ℤ
  pub width_mm : F.Double
  pub height_mm : F.Double
  pub left_margin_mm : F.Double
  pub top_margin_mm : F.Double

abbrev pub is_supported_rotation : ℤ → Bool
is_supported_rotation rotation =
    rotation ==ℤ pos 0 || rotation ==ℤ pos 90 || rotation ==ℤ pos 180 || rotation ==ℤ pos 270

module _ (F : Floating) where
  unfoldable pub validate : HardwareConfig F → Result {0} Unit
  validate config =
      if leb_ℤ config.res_x (pos 0) || leb_ℤ config.res_y (pos 0)
      then err (runtime_error "hardware resolution must be positive")
      else if not (F.is_finite config.width_mm)
          || F.is_not_positive config.width_mm
          || not (F.is_finite config.height_mm)
          || F.is_not_positive config.height_mm
      then err (runtime_error "hardware dimensions must be finite and positive")
      else if not (F.is_finite config.left_margin_mm)
          || F.is_negative config.left_margin_mm
          || not (F.is_finite config.top_margin_mm)
          || F.is_negative config.top_margin_mm
      then err (runtime_error "hardware margins must be finite and non-negative")
      else if not (is_supported_rotation config.rotation)
      then err (runtime_error "hardware rotation must be 0, 90, 180, or 270 degrees")
      else ok tt

  -- LoadHardwareConfig, after the CSV reader has read a row, has found none, or has thrown.
  unfoldable pub load_hardware_config :
      String → Result (Option (HardwareConfig F)) → Result (HardwareConfig F)
  load_hardware_config path row = do
    read ← row
    elim read [
      | none ↦ err (runtime_error (String.◌++◌ "hardware configuration has no data row: " path))
      | some config ↦ (do checked ← validate config; ok config)
    ]

-- hw_pitch_x and hw_pitch_y of both LoadLayouts: units of the sensor in a millimetre.
module _ (F : Floating) (A : Arithmetic F) where
  abbrev pub pitch_x : HardwareConfig F → F.Double
  pitch_x config = A.over (A.of_int config.res_x) config.width_mm

  abbrev pub pitch_y : HardwareConfig F → F.Double
  pitch_y config = A.over (A.of_int config.res_y) config.height_mm

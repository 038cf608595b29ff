-- ===== src/Hardware/Scale.antt =====
-- A sensor whose size is known, and the order of positions on it.
use halo_keyboard.Prelude.{◌≡◌, true, false}
use halo_keyboard.Floating.{Floating, Arithmetic, IsMonotone}
use halo_keyboard.Hardware.{HardwareConfig, pitch_x, pitch_y}

module _ (F : Floating) (A : Arithmetic F) where
  abbrev pub AtMost : F.Double → F.Double → Type 0
  AtMost a b = A.le a b ≡ true

  -- A configuration that was validated, with a pitch that is a finite number.
  pub record IsMeasured (config : HardwareConfig F) : Type 0 where
    pub finite_width : F.is_finite config.width_mm ≡ true
    pub finite_height : F.is_finite config.height_mm ≡ true
    pub finite_left : F.is_finite config.left_margin_mm ≡ true
    pub finite_top : F.is_finite config.top_margin_mm ≡ true
    pub finite_pitch_x : F.is_finite (pitch_x F A config) ≡ true
    pub finite_pitch_y : F.is_finite (pitch_y F A config) ≡ true
    pub positive_pitch_x : F.is_not_positive (pitch_x F A config) ≡ false
    pub positive_pitch_y : F.is_not_positive (pitch_y F A config) ≡ false

  module _ (m : IsMonotone F A) (config : HardwareConfig F) (c : IsMeasured config) where
    pub scale_x :
        (a b : F.Double)
        → A.le a b ≡ true
        → AtMost (A.times a (pitch_x F A config)) (A.times b (pitch_x F A config))
    scale_x a b = m.times_le a b _ c.finite_pitch_x c.positive_pitch_x

    pub scale_y :
        (a b : F.Double)
        → A.le a b ≡ true
        → AtMost (A.times a (pitch_y F A config)) (A.times b (pitch_y F A config))
    scale_y a b = m.times_le a b _ c.finite_pitch_y c.positive_pitch_y

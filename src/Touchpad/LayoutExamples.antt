-- ===== src/Touchpad/LayoutExamples.antt =====
-- The touchpad region of a small configuration, on a sensor that is turned by 270 degrees.
use halo_keyboard.Prelude.{ℤ, pos, ◌≡◌, refl, some, ◌+ℤ◌, ◌-ℤ◌, scale_ℤ, div_ℤ, pos_part, leb_ℤ}
use halo_keyboard.System.{ok}
use halo_keyboard.Floating.{Arithmetic}
use halo_keyboard.Floating.Whole.{whole, on_whole, whole-IsMonotone}
use halo_keyboard.Csv.{Csv, finished, row}
use halo_keyboard.Hardware.{HardwareConfig}
use halo_keyboard.Hardware.Scale.{IsMeasured}
use halo_keyboard.Touchpad.Layout.{
  TouchpadRow, Bounds, Loaded, check_row, turned, region_of, load_layout, make_layout,
}
use halo_keyboard.Touchpad.Geometry.{IsUpright, make_layout-IsUpright, region_of_whole}
use halo_keyboard.Multitouch.EventKey.{event_key_eq}

abbrev pub config : HardwareConfig whole
config = record {
  rotation = pos 270;
  res_x = pos 1200;
  res_y = pos 1920;
  width_mm = pos 120;
  height_mm = pos 240;
  left_margin_mm = pos 0;
  top_margin_mm = pos 4;
}

pub config-IsMeasured : IsMeasured whole on_whole config
config-IsMeasured = record {
  finite_width = refl;
  finite_height = refl;
  finite_left = refl;
  finite_top = refl;
  finite_pitch_x = refl;
  finite_pitch_y = refl;
  positive_pitch_x = refl;
  positive_pitch_y = refl;
}

abbrev pub csv : Csv (TouchpadRow ℤ)
csv =
    row
      (record { x1 = some (pos 78); y1 = some (pos 98); x2 = some (pos 145); y2 = some (pos 113) })
      finished

abbrev pub loaded : Loaded ℤ
loaded = record {
  region = record {
    rotation = pos 270;
    xmin = pos 30;
    xmax = pos 180;
    ymin = pos 624;
    ymax = pos 1160;
  };
  width_mm = pos 67;
  height_mm = pos 15;
}

pub region_loaded : make_layout whole on_whole "touchpad.csv" config csv ≡ ok loaded
unfolding make_layout load_layout check_row turned region_of ◌+ℤ◌ ◌-ℤ◌
region_loaded = refl

make_layout-IsUpright_example : IsUpright (pos 270) loaded.region
make_layout-IsUpright_example =
    make_layout-IsUpright whole on_whole whole-IsMonotone config config-IsMeasured "touchpad.csv"
      csv loaded region_loaded

-- Numbers of halves, so that there are positions between two millimetres.
abbrev on_halves : Arithmetic whole
on_halves = record {
  of_int = λ i. scale_ℤ i 2;
  plus = ◌+ℤ◌;
  minus = ◌-ℤ◌;
  times = λ a b. div_ℤ (scale_ℤ a (pos_part b)) 2;
  over = λ a b. div_ℤ (scale_ℤ a 2) (pos_part b);
  le = leb_ℤ;
  truncated = λ a. some (div_ℤ a 2);
  nearest = λ a. some (div_ℤ (a +ℤ pos 1) 2);
}

-- From 2 to 36.5 and from 78 to 145.5 mm, and the same without the halves.
abbrev exact : Bounds ℤ
exact = record { xmin = pos 4; xmax = pos 73; ymin = pos 156; ymax = pos 291 }

abbrev cut : Bounds ℤ
cut = record { xmin = pos 4; xmax = pos 72; ymin = pos 156; ymax = pos 290 }

region_of_whole_example :
    region_of whole on_halves config (some exact) ≡ region_of whole on_halves config (some cut)
region_of_whole_example = region_of_whole whole on_halves config exact cut refl refl refl refl

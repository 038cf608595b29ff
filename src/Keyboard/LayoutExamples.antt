-- ===== src/Keyboard/LayoutExamples.antt =====
-- A small layout and the key that is made from it.
use halo_keyboard.Prelude.{
  ℤ, pos, ◌≤◌, ◌≡◌, refl, true, [], ◌∷◌, none, some, arith, int_eq, length, All, ◌+ℤ◌, ◌-ℤ◌,
}
use halo_keyboard.System.{ok}
use halo_keyboard.Floating.Whole.{whole, on_whole, whole-IsMonotone}
use halo_keyboard.Csv.{Csv, finished, row, rows}
use halo_keyboard.Hardware.{HardwareConfig}
use halo_keyboard.Hardware.Scale.{IsMeasured}
use halo_keyboard.Keyboard.Key.{Key}
use halo_keyboard.Keyboard.Layout.{
  LayoutRow, Variables, Place, Edges, unread, read_into, is_cons, check_key, edges_of, key_of,
  load_key, load_rows, load_layout, make_layout,
}
use halo_keyboard.Keyboard.Layouts.{IsUsable, Loads, make_layout_iff, make_layout-IsUsable}
use halo_keyboard.Keyboard.Geometry.{load_key_sized}

-- 10 units a millimetre in width and 8 in height; the sensor is turned by 270 degrees.
abbrev pub config : HardwareConfig whole
config = record {
  rotation = pos 270;
  res_x = pos 1200;
  res_y = pos 1920;
  width_mm = pos 120;
  height_mm = pos 240;
  left_margin_mm = pos 0;
  top_margin_mm = pos 4;
}

abbrev esc_row : LayoutRow ℤ
esc_row = record {
  x = some (pos 0);
  y = some (pos 0);
  width = some (pos 18);
  height = some (pos 8);
  name = some "ESC";
  code = some (pos 1);
  code_fn = none;
}

abbrev pub csv : Csv (LayoutRow ℤ)
csv = row esc_row finished

abbrev pub esc : Key
esc = record {
  event_code = 1;
  event_code_fn = 0;
  xmin = pos 1080;
  xmax = pos 1160;
  ymin = pos 0;
  ymax = pos 144;
}

pub layout_loaded : make_layout whole on_whole "layout.csv" config csv ≡ ok (esc ∷ [])
unfolding make_layout load_layout load_rows load_key check_key edges_of key_of ◌+ℤ◌ ◌-ℤ◌
layout_loaded = refl

make_layout_iff_example :
    Loads whole on_whole config csv (unread whole on_whole) (esc ∷ []) × (is_cons (esc ∷ []) ≡ true)
make_layout_iff_example =
    (make_layout_iff whole on_whole "layout.csv" config csv (esc ∷ [])).0 layout_loaded

make_layout-IsUsable_example :
    All IsUsable (esc ∷ []) × (length (esc ∷ []) ≡ rows csv) × (1 ≤ rows csv)
make_layout-IsUsable_example =
    make_layout-IsUsable whole on_whole "layout.csv" config csv (esc ∷ []) layout_loaded

config-IsMeasured : IsMeasured whole on_whole config
config-IsMeasured = record {
  finite_width = refl;
  finite_height = refl;
  finite_left = refl;
  finite_top = refl;
  finite_pitch_x = refl;
  finite_pitch_y = refl;
  positive_pitch_x = refl;
  positive_pitch_y = refl;
}

abbrev esc_variables : Variables ℤ
esc_variables = read_into whole on_whole esc_row (unread whole on_whole)

abbrev esc_place : Place ℤ
esc_place = record {
  x = pos 0;
  y = pos 0;
  w = pos 18;
  h = pos 8;
  keyname = "ESC";
  keycode = 1;
  keycode_fn = 0;
}

abbrev esc_edges : Edges ℤ
esc_edges = record { x1 = pos 1080; x2 = pos 1160; y1 = pos 0; y2 = pos 144 }

esc_checked : check_key whole on_whole esc_variables ≡ ok esc_place
unfolding check_key
esc_checked = refl

esc_turned : edges_of whole on_whole config esc_place ≡ some esc_edges
unfolding edges_of ◌+ℤ◌ ◌-ℤ◌
esc_turned = refl

load_key_sized_example : load_key whole on_whole config esc_variables ≡ ok (some esc)
load_key_sized_example =
    load_key_sized whole on_whole whole-IsMonotone config config-IsMeasured esc_variables esc_place
      esc_edges (pos 1080) (pos 1160) (pos 0) (pos 144) esc_checked esc_turned refl refl refl refl
      (λ e. ground (arith, e)) (λ e. ground (arith, e))

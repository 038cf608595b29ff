-- ===== src/Touchpad/Layout.antt =====
-- The constructor of FakeTouchpad and LoadLayout.
use Prim.Native.String.{String}
use Prim.Native.String
use halo_keyboard.Prelude.{ℤ, pos, ◌||◌, Option, none, some, ◌==ℤ◌, if◌then◌else◌}
use halo_keyboard.System.{Result, ok, err, runtime_error, ◌>>=◌}
use halo_keyboard.Floating.{Floating, Arithmetic}
use halo_keyboard.Csv.{Csv, finished, failed, row, defined}
use halo_keyboard.Hardware.{HardwareConfig, pitch_x, pitch_y}
use halo_keyboard.Touchpad.Region.{Region}

-- A column that the file does not have is `none`.
pub record TouchpadRow (D : Type 0) : Type 0 where
  pub x1 : Option D
  pub y1 : Option D
  pub x2 : Option D
  pub y2 : Option D

-- Four edges, in millimetres.
pub record Bounds (D : Type 0) : Type 0 where
  pub xmin : D
  pub xmax : D
  pub ymin : D
  pub ymax : D

-- The members that LoadLayout assigns.
pub record Loaded (D : Type 0) : Type 0 where
  pub region : Region
  pub width_mm : D
  pub height_mm : D

module _ (F : Floating) (A : Arithmetic F) where
  abbrev invalid_geometry {ℓ} : {B : Type ℓ} → Result B
  invalid_geometry = err (runtime_error "touchpad geometry is invalid")

  -- `!std::isfinite(v)` in the chain of tests: the first that holds throws.
  abbrev pub finite : Option F.Double → Result F.Double
  finite variable = do v ← defined variable; if F.is_finite v then ok v else invalid_geometry

  unfoldable pub check_row : TouchpadRow F.Double → Result (Bounds F.Double)
  check_row r = do
    xmin ← finite r.x1
    ymin ← finite r.y1
    xmax ← finite r.x2
    ymax ← finite r.y2
    if A.le xmax xmin || A.le ymax ymin
        then invalid_geometry
        else ok (record { xmin = xmin; xmax = xmax; ymin = ymin; ymax = ymax })

  -- The switch over the rotation; `none` is its default.
  unfoldable pub turned : HardwareConfig F → Bounds F.Double → Option (Bounds F.Double)
  turned config b =
      let left = config.left_margin_mm in
      let top = config.top_margin_mm in
      if config.rotation ==ℤ pos 0
      then some (record {
        xmin = A.plus b.xmin left;
        xmax = A.plus b.xmax left;
        ymin = A.plus b.ymin top;
        ymax = A.plus b.ymax top;
      })
      else if config.rotation ==ℤ pos 90
      then some (record {
        xmin = A.plus top b.ymin;
        xmax = A.plus top b.ymax;
        ymin = A.minus config.height_mm (A.plus left b.xmax);
        ymax = A.minus config.height_mm (A.plus left b.xmin);
      })
      else if config.rotation ==ℤ pos 180
      then some (record {
        xmin = A.minus config.width_mm (A.plus b.xmax left);
        xmax = A.minus config.width_mm (A.plus b.xmin left);
        ymin = A.minus config.height_mm (A.plus b.ymax top);
        ymax = A.minus config.height_mm (A.plus b.ymin top);
      })
      else if config.rotation ==ℤ pos 270
      then some (record {
        xmin = A.minus config.width_mm (A.plus b.ymax top);
        xmax = A.minus config.width_mm (A.plus b.ymin top);
        ymin = A.plus left b.xmin;
        ymax = A.plus left b.xmax;
      })
      else none

  -- An edge is assigned to an int and then multiplied by the pitch, into the int again.
  abbrev pub scaled : F.Double → F.Double → Result ℤ
  scaled edge pitch = do
    mm ← defined (A.truncated edge)
    defined (A.truncated (A.times (A.of_int mm) pitch))

  unfoldable pub region_of : HardwareConfig F → Option (Bounds F.Double) → Result Region
  region_of config none = err (runtime_error "unsupported touchpad rotation")
  region_of config (some b) = do
    xmin ← scaled b.xmin (pitch_x F A config)
    xmax ← scaled b.xmax (pitch_x F A config)
    ymin ← scaled b.ymin (pitch_y F A config)
    ymax ← scaled b.ymax (pitch_y F A config)
    ok (record { rotation = config.rotation; xmin = xmin; xmax = xmax; ymin = ymin; ymax = ymax })

  -- `none` is the return of false; rows after the first are not read.
  unfoldable pub load_layout :
      HardwareConfig F → Csv (TouchpadRow F.Double) → Result (Option (Loaded F.Double))
  load_layout config finished = ok none
  load_layout config (failed e) = err e
  load_layout config (row r csv) = do
    b ← check_row r
    g ← region_of config (turned config b)
    ok (
        some (record {
          region = g;
          width_mm = A.minus b.xmax b.xmin;
          height_mm = A.minus b.ymax b.ymin;
        }))

  -- The constructor.
  unfoldable pub make_layout :
      String → HardwareConfig F → Csv (TouchpadRow F.Double) → Result (Loaded F.Double)
  make_layout layout_path config csv = do
    loaded ← load_layout config csv
    elim loaded [
      | none ↦
          err (runtime_error (String.◌++◌ "touchpad configuration has no data row: " layout_path))
      | some l ↦ ok l
    ]

  -- `std::lround(w / width_mm_)` and `std::lround(h / height_mm_)`
  unfoldable pub resolutions : Loaded F.Double → ℤ × ℤ → Result (ℤ × ℤ)
  resolutions l size = do
    xres ← defined (A.nearest (A.over (A.of_int size.0) l.width_mm))
    yres ← defined (A.nearest (A.over (A.of_int size.1) l.height_mm))
    ok (xres, yres)

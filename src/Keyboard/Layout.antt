-- ===== src/Keyboard/Layout.antt =====
-- The constructor of FakeKeyboard and LoadLayout.
use Prim.Native.String.{String}
use Prim.Native.String
use halo_keyboard.Prelude.{
  ℕ, ℤ, pos, pos_part, Bool, true, false, not, ◌||◌, List, [], ◌∷◌, ◌++◌, Option, none, some, leb_ℤ,
  ltb_ℤ, ◌==ℤ◌, if◌then◌else◌,
}
use halo_keyboard.System.{Result, ok, err, runtime_error, ◌>>=◌}
use halo_keyboard.Floating.{Floating, Arithmetic}
use halo_keyboard.Csv.{Csv, finished, failed, row, assigned, assigned_first, defined}
use halo_keyboard.Hardware.{HardwareConfig, pitch_x, pitch_y}
use halo_keyboard.Keyboard.Key.{Key}

abbrev pub key_max : ℤ
key_max = pos 0x2ff

-- The fields of a row that the code uses; a column that the file does not have is `none`.
pub record LayoutRow (D : Type 0) : Type 0 where
  pub x : Option D
  pub y : Option D
  pub width : Option D
  pub height : Option D
  pub name : Option String
  pub code : Option ℤ
  pub code_fn : Option ℤ

-- The local variables that read_row fills in.
pub record Variables (D : Type 0) : Type 0 where
  pub x : Option D
  pub y : Option D
  pub w : Option D
  pub h : Option D
  pub keyname : String
  pub keycode : ℤ
  pub keycode_fn : ℤ

-- A key in millimetres, with codes that an event can have.
pub record Place (D : Type 0) : Type 0 where
  pub x : D
  pub y : D
  pub w : D
  pub h : D
  pub keyname : String
  pub keycode : ℕ
  pub keycode_fn : ℕ

-- The edges of a key in units of the sensor, before they are converted to int.
pub record Edges (D : Type 0) : Type 0 where
  pub x1 : D
  pub x2 : D
  pub y1 : D
  pub y2 : D

-- `!layout_.empty()`
abbrev pub is_cons : List Key → Bool
is_cons [] = false
is_cons (key ∷ layout) = true

module _ (F : Floating) (A : Arithmetic F) where
  abbrev pub unread : Variables F.Double
  unread = record {
    x = none;
    y = none;
    w = none;
    h = none;
    keyname = "";
    keycode = pos 0;
    keycode_fn = pos 0;
  }

  abbrev pub read_into : LayoutRow F.Double → Variables F.Double → Variables F.Double
  read_into r v = record {
    x = assigned_first r.x v.x;
    y = assigned_first r.y v.y;
    w = assigned_first r.width v.w;
    h = assigned_first r.height v.h;
    keyname = assigned r.name v.keyname;
    keycode = assigned r.code v.keycode;
    keycode_fn = assigned r.code_fn v.keycode_fn;
  }

  abbrev invalid_key {ℓ} : {B : Type ℓ} → String → Result B
  invalid_key keyname =
      err (runtime_error (String.◌++◌ "keyboard layout contains an invalid key: " keyname))

  -- `!std::isfinite(v)` in the chain of tests: the first that holds throws.
  abbrev pub finite : String → Option F.Double → Result F.Double
  finite keyname variable = do
    v ← defined variable
    if F.is_finite v then ok v else invalid_key keyname

  -- The tests at the start of the loop.
  unfoldable pub check_key : Variables F.Double → Result (Place F.Double)
  check_key v = do
    x ← finite v.keyname v.x
    y ← finite v.keyname v.y
    w ← finite v.keyname v.w
    h ← finite v.keyname v.h
    if F.is_not_positive w
          || F.is_not_positive h
          || leb_ℤ v.keycode (pos 0)
          || ltb_ℤ key_max v.keycode
          || ltb_ℤ v.keycode_fn (pos 0)
          || ltb_ℤ key_max v.keycode_fn
        then invalid_key v.keyname
        else ok (record {
          x = x;
          y = y;
          w = w;
          h = h;
          keyname = v.keyname;
          keycode = pos_part v.keycode;
          keycode_fn = pos_part v.keycode_fn;
        })

  -- The switch over the rotation; `none` is its default.
  unfoldable pub edges_of : HardwareConfig F → Place F.Double → Option (Edges F.Double)
  edges_of config p =
      let left = A.plus config.left_margin_mm p.x in
      let top = A.plus config.top_margin_mm p.y in
      if config.rotation ==ℤ pos 0
      then some (record {
        x1 = A.times left (pitch_x F A config);
        x2 = A.times (A.plus left p.w) (pitch_x F A config);
        y1 = A.times top (pitch_y F A config);
        y2 = A.times (A.plus top p.h) (pitch_y F A config);
      })
      else if config.rotation ==ℤ pos 90
      then some (record {
        x1 = A.times top (pitch_x F A config);
        x2 = A.times (A.plus top p.h) (pitch_x F A config);
        y1 = A.times (A.minus config.height_mm (A.plus left p.w)) (pitch_y F A config);
        y2 = A.times (A.minus config.height_mm left) (pitch_y F A config);
      })
      else if config.rotation ==ℤ pos 180
      then some (record {
        x1 = A.times (A.minus config.width_mm (A.plus left p.w)) (pitch_x F A config);
        x2 = A.times (A.minus config.width_mm left) (pitch_x F A config);
        y1 = A.times (A.minus config.height_mm (A.plus top p.h)) (pitch_y F A config);
        y2 = A.times (A.minus config.height_mm top) (pitch_y F A config);
      })
      else if config.rotation ==ℤ pos 270
      then some (record {
        x1 =
            A.times (A.minus config.width_mm (A.plus (A.plus p.y p.h) config.top_margin_mm))
              (pitch_x F A config);
        x2 =
            A.times (A.minus config.width_mm (A.plus p.y config.top_margin_mm))
              (pitch_x F A config);
        y1 = A.times left (pitch_y F A config);
        y2 = A.times (A.plus left p.w) (pitch_y F A config);
      })
      else none

  abbrev invalid_bounds {ℓ} : {B : Type ℓ} → String → Result B
  invalid_bounds keyname =
      err (runtime_error (String.◌++◌ "keyboard layout produces invalid bounds for: " keyname))

  -- The end of the loop: the key that is added to layout_.
  unfoldable pub key_of : Place F.Double → Edges F.Double → Result Key
  key_of p e = do
    x1 ← defined (A.truncated e.x1)
    x2 ← defined (A.truncated e.x2)
    y1 ← defined (A.truncated e.y1)
    y2 ← defined (A.truncated e.y2)
    if leb_ℤ x2 x1 || leb_ℤ y2 y1
        then invalid_bounds p.keyname
        else ok (record {
          event_code = p.keycode;
          event_code_fn = p.keycode_fn;
          xmin = x1;
          xmax = x2;
          ymin = y1;
          ymax = y2;
        })

  abbrev pub add_key : Place F.Double → Option (Edges F.Double) → Result (Option Key)
  add_key p none = ok none
  add_key p (some e) = do key ← key_of p e; ok (some key)

  -- The body of the loop after read_row; `none` is the return of false.
  unfoldable pub load_key : HardwareConfig F → Variables F.Double → Result (Option Key)
  load_key config v = do p ← check_key v; add_key p (edges_of config p)

  abbrev pub or_stop :
      List Key → Option Key → (Key → Result (List Key × Bool)) → Result (List Key × Bool)
  or_stop layout none next = ok (layout, false)
  or_stop layout (some key) next = next key

  -- The loop: layout_ and the returned flag.
  unfoldable pub load_rows :
      HardwareConfig F
      → Csv (LayoutRow F.Double)
      → Variables F.Double
      → List Key
      → Result (List Key × Bool)
  load_rows config finished v layout = ok (layout, is_cons layout)
  load_rows config (failed e) v layout = err e
  load_rows config (row r csv) v layout = do
    loaded ← load_key config (read_into r v)
    or_stop layout loaded λ key. load_rows config csv (read_into r v) (layout ++ (key ∷ []))

  unfoldable pub load_layout :
      HardwareConfig F → Csv (LayoutRow F.Double) → List Key → Result (List Key × Bool)
  load_layout config csv layout = load_rows config csv unread layout

  -- The constructor: the layout of the new object.
  unfoldable pub make_layout :
      String → HardwareConfig F → Csv (LayoutRow F.Double) → Result (List Key)
  make_layout layout_path config csv = do
    loaded ← load_layout config csv []
    if not loaded.1
        then err (runtime_error (String.◌++◌ "keyboard layout has no keys: " layout_path))
        else ok loaded.0

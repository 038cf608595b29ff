-- ===== src/Keyboard/Geometry.antt =====
-- The edges that LoadLayout computes for a key, in an arithmetic that keeps the order.
use halo_keyboard.Prelude.{eq_of_parts, leb_ℤ, ◌≢◌, ℤ, ◌≡◌, refl, false, some, arith}
use halo_keyboard.System.{ok}
use halo_keyboard.Floating.{Floating, Arithmetic, IsMonotone}
use halo_keyboard.Hardware.{HardwareConfig}
use halo_keyboard.Hardware.Scale.{AtMost, IsMeasured, scale_x, scale_y}
use halo_keyboard.Keyboard.Layout.{Place, Edges, Variables, check_key, key_of, load_key, edges_of}
use halo_keyboard.Keyboard.Layouts.{IsChecked, check_key-IsChecked}

module _ (F : Floating) (A : Arithmetic F) (m : IsMonotone F A) where
  module _ (config : HardwareConfig F) (c : IsMeasured F A config) where
    -- Whatever the rotation is, the first edge of a key is at most the second, in both directions.
    edges_of-le :
        (p : Place F.Double) (e : Edges F.Double)
        → IsChecked F A p
        → edges_of F A config p ≡ some e
        → AtMost F A e.x1 e.x2 × AtMost F A e.y1 e.y2
    unfolding edges_of
    edges_of-le p e k o =
        let left = A.plus config.left_margin_mm p.x in
        let top = A.plus config.top_margin_mm p.y in
        let wide : AtMost F A left (A.plus left p.w) =
          m.plus_positive left p.w (m.plus_number _ _ c.finite_left k.finite_x) k.finite_w k.wide in
        let high : AtMost F A top (A.plus top p.h) =
          m.plus_positive top p.h (m.plus_number _ _ c.finite_top k.finite_y) k.finite_h k.high in
        let y_high : AtMost F A p.y (A.plus p.y p.h) =
          m.plus_positive p.y p.h (m.finite_number p.y k.finite_y) k.finite_h k.high in
        ground (
          arith,
          o,
          scale_x F A m config c _ _ wide,
          scale_y F A m config c _ _ wide,
          scale_x F A m config c _ _ high,
          scale_y F A m config c _ _ high,
          scale_x F A m config c _ _ (m.minus_le _ _ _ c.finite_width wide),
          scale_y F A m config c _ _ (m.minus_le _ _ _ c.finite_height wide),
          scale_y F A m config c _ _ (m.minus_le _ _ _ c.finite_height high),
          scale_x F A m config c _ _
              (m.minus_le _ _ _ c.finite_width (m.plus_le _ _ _ c.finite_top y_high)),
        )

    -- In an arithmetic that keeps the order, on a measured sensor, a row of the layout that passes
    -- the tests on its fields, and whose edges fit an int, gives a key unless two opposite edges
    -- fall on one unit of the sensor: no rotation turns a key inside out.
    pub load_key_sized :
        (v : Variables F.Double) (p : Place F.Double) (e : Edges F.Double) (x1 x2 y1 y2 : ℤ)
        → check_key F A v ≡ ok p
        → edges_of F A config p ≡ some e
        → A.truncated e.x1 ≡ some x1
        → A.truncated e.x2 ≡ some x2
        → A.truncated e.y1 ≡ some y1
        → A.truncated e.y2 ≡ some y2
        → x1 ≢ x2
        → y1 ≢ y2
        → load_key F A config v
          ≡ ok (
              some (record {
                event_code = p.keycode;
                event_code_fn = p.keycode_fn;
                xmin = x1;
                xmax = x2;
                ymin = y1;
                ymax = y2;
              }))
    unfolding load_key key_of
    load_key_sized v p e x1 x2 y1 y2 k o a b c' d n n' =
        let (w, h) = edges_of-le p e (check_key-IsChecked F A v p k) o in
        let x : leb_ℤ x2 x1 ≡ false =
          ground (arith, eq_of_parts x1 x2, n, m.truncated_le e.x1 e.x2 x1 x2 w a b) in
        let y : leb_ℤ y2 y1 ≡ false =
          ground (arith, eq_of_parts y1 y2, n', m.truncated_le e.y1 e.y2 y1 y2 h c' d) in
        rw (k, o, key_of, a, b, c', d, x, y) refl

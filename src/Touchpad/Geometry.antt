-- ===== src/Touchpad/Geometry.antt =====
-- The region that LoadLayout computes for the touchpad.
use Prim.Native.String.{String}
use halo_keyboard.Prelude.{ℤ, ◌≤ℤ◌, ◌≡◌, refl, ap, ◌∙◌, true, false, Option, none, some, arith}
use halo_keyboard.System.{ok, bind-ok}
use halo_keyboard.Floating.{Floating, Arithmetic, IsMonotone}
use halo_keyboard.Csv.{Csv, finished, failed, row, defined}
use halo_keyboard.Hardware.{HardwareConfig, pitch_x, pitch_y}
use halo_keyboard.Hardware.Scale.{AtMost, IsMeasured, scale_x, scale_y}
use halo_keyboard.Touchpad.Region.{Region}
use halo_keyboard.Touchpad.Layout.{
  TouchpadRow, Bounds, Loaded, check_row, turned, scaled, region_of, load_layout, make_layout,
}

-- A region that is not inside out, on a sensor that is turned so.
pub record IsUpright (rotation : ℤ) (g : Region) : Type 0 where
  pub wide : g.xmin ≤ℤ g.xmax
  pub high : g.ymin ≤ℤ g.ymax
  pub rotated : g.rotation ≡ rotation

module _ (F : Floating) (A : Arithmetic F) where
  abbrev AreOrdered : Bounds F.Double → Type 0
  AreOrdered b = AtMost F A b.xmin b.xmax × AtMost F A b.ymin b.ymax

  defined-some : {B : Type 0} (o : Option B) (b : B) → defined o ≡ ok b → o ≡ some b
  defined-some o b e = ground (arith, e)

  module _ (m : IsMonotone F A) (config : HardwareConfig F) (c : IsMeasured F A config) where
    check_row-AreOrdered :
        (r : TouchpadRow F.Double) (b : Bounds F.Double) → check_row F A r ≡ ok b → AreOrdered b
    unfolding check_row
    check_row-AreOrdered r b e =
        let fx : F.is_finite b.xmin ≡ true = ground (arith, e) in
        let fx' : F.is_finite b.xmax ≡ true = ground (arith, e) in
        let fy : F.is_finite b.ymin ≡ true = ground (arith, e) in
        let fy' : F.is_finite b.ymax ≡ true = ground (arith, e) in
        let x : A.le b.xmax b.xmin ≡ false = ground (arith, e) in
        let y : A.le b.ymax b.ymin ≡ false = ground (arith, e) in
        (m.le_total b.xmin b.xmax fx fx' x, m.le_total b.ymin b.ymax fy fy' y)

    turned-AreOrdered :
        (b t : Bounds F.Double) → AreOrdered b → turned F A config b ≡ some t → AreOrdered t
    unfolding turned
    turned-AreOrdered b t (x, y) e = ground (
      arith,
      e,
      m.plus_le _ _ _ c.finite_left x,
      m.plus_le _ _ _ c.finite_top y,
      m.le_plus _ _ _ c.finite_top y,
      m.le_plus _ _ _ c.finite_left x,
      m.minus_le _ _ _ c.finite_height (m.le_plus _ _ _ c.finite_left x),
      m.minus_le _ _ _ c.finite_width (m.plus_le _ _ _ c.finite_left x),
      m.minus_le _ _ _ c.finite_height (m.plus_le _ _ _ c.finite_top y),
      m.minus_le _ _ _ c.finite_width (m.plus_le _ _ _ c.finite_top y),
    )

    -- The rounding to whole millimetres and the scaling keep the order.
    scaled_le :
        (a b pitch : F.Double) (i j : ℤ)
        → ((a b : F.Double) → AtMost F A a b → AtMost F A (A.times a pitch) (A.times b pitch))
        → AtMost F A a b
        → scaled F A a pitch ≡ ok i
        → scaled F A b pitch ≡ ok j
        → i ≤ℤ j
    scaled_le a b pitch i j s h e e' =
        let (mm, t, u) = bind-ok (defined (A.truncated a)) _ i e in
        let (mm', t', u') = bind-ok (defined (A.truncated b)) _ j e' in
        let le = m.truncated_le a b mm mm' h (defined-some _ mm t) (defined-some _ mm' t') in
        m.truncated_le _ _ i j (s _ _ (m.of_int_le mm mm' le)) (defined-some _ i u)
          (defined-some _ j u')

    region_of-IsUpright :
        (o : Option (Bounds F.Double)) (g : Region)
        → ((t : Bounds F.Double) → o ≡ some t → AreOrdered t)
        → region_of F A config o ≡ ok g
        → IsUpright config.rotation g
    unfolding region_of
    region_of-IsUpright none g h e = absurd (cc e)
    region_of-IsUpright (some t) g h e =
        let (x, xe, r1) = bind-ok (scaled F A t.xmin (pitch_x F A config)) _ g e in
        let (x', xe', r2) = bind-ok (scaled F A t.xmax (pitch_x F A config)) _ g r1 in
        let (y, ye, r3) = bind-ok (scaled F A t.ymin (pitch_y F A config)) _ g r2 in
        let (y', ye', r4) = bind-ok (scaled F A t.ymax (pitch_y F A config)) _ g r3 in
        let (l, l') = h t refl in
        ground (
          arith,
          r4,
          scaled_le _ _ _ x x' (scale_x F A m config c) l xe xe',
          scaled_le _ _ _ y y' (scale_y F A m config c) l' ye ye',
        )

    load_layout-IsUpright :
        (csv : Csv (TouchpadRow F.Double)) (l : Loaded F.Double)
        → load_layout F A config csv ≡ ok (some l)
        → IsUpright config.rotation l.region
    unfolding load_layout
    load_layout-IsUpright finished l e = absurd (cc e)
    load_layout-IsUpright (failed f) l e = absurd (cc e)
    load_layout-IsUpright (row r csv) l e =
        let (b, k, e1) = bind-ok (check_row F A r) _ (some l) e in
        let (g, k', e2) = bind-ok (region_of F A config (turned F A config b)) _ (some l) e1 in
        let u =
          region_of-IsUpright (turned F A config b) g
            (λ t. turned-AreOrdered b t (check_row-AreOrdered r b k)) k' in
        let q : l.region ≡ g = ground (arith, e2) in rw q u

    -- In an arithmetic that keeps the order, on a measured sensor, the region of a new FakeTouchpad
    -- is not inside out whatever the rotation is, and its rotation is that of the configuration:
    -- the axes of the virtual device get sizes that are not negative.
    pub make_layout-IsUpright :
        (path : String) (csv : Csv (TouchpadRow F.Double)) (l : Loaded F.Double)
        → make_layout F A path config csv ≡ ok l
        → IsUpright config.rotation l.region
    unfolding make_layout
    make_layout-IsUpright path csv l e =
        let (o, k, e1) = bind-ok (load_layout F A config csv) _ l e in
        let s : o ≡ some l = ground (arith, e1) in load_layout-IsUpright csv l (k ∙ ap ok s)

  -- The region of a FakeTouchpad keeps whole millimetres only: edges with the same whole part give
  -- the same region, on any sensor.
  pub region_of_whole :
      (config : HardwareConfig F) (b c : Bounds F.Double)
      → A.truncated b.xmin ≡ A.truncated c.xmin
      → A.truncated b.xmax ≡ A.truncated c.xmax
      → A.truncated b.ymin ≡ A.truncated c.ymin
      → A.truncated b.ymax ≡ A.truncated c.ymax
      → region_of F A config (some b) ≡ region_of F A config (some c)
  unfolding region_of
  region_of_whole config b c x x' y y' = rw (x, x', y, y') refl

-- ===== src/Keyboard/Layouts.antt =====
-- The layouts that the constructor of FakeKeyboard accepts, and the keys in them.
use Prim.Native.String.{String}
use mathlib.Core.Path.{subst}
use mathlib.Core.List.{append-nil, append_assoc}
use halo_keyboard.Prelude.{
  suc, ◌≤◌, ◌<ℤ◌, ◌≡◌, refl, sym, ap, ◌∙◌, ◌↔◌, Bool, true, false, List, [], ◌∷◌, ◌++◌, Option,
  none, some, All, length, arith,
}
use halo_keyboard.System.{Result, ok, bind-ok, ok-injective}
use halo_keyboard.Floating.{Floating, Arithmetic}
use halo_keyboard.Csv.{Csv, finished, failed, row, rows}
use halo_keyboard.Hardware.{HardwareConfig}
use halo_keyboard.Keyboard.Key.{Key}
use halo_keyboard.Keyboard.Layout.{
  LayoutRow, Variables, Place, Edges, unread, read_into, check_key, edges_of, key_of, load_key,
  add_key, is_cons, or_stop, load_rows, load_layout, make_layout,
}

-- A key that can be touched and sent: its area is not empty, and its codes are codes of keys.
pub record IsUsable (key : Key) : Type 0 where
  pub coded : 1 ≤ key.event_code
  pub code_bound : key.event_code ≤ 0x2ff
  pub code_fn_bound : key.event_code_fn ≤ 0x2ff
  pub wide : key.xmin <ℤ key.xmax
  pub high : key.ymin <ℤ key.ymax

is_cons-length : (keys : List Key) → is_cons keys ≡ true → 1 ≤ length keys
is_cons-length [] e = absurd (cc e)
is_cons-length (key ∷ keys) e = omega arith

module _ (F : Floating) (A : Arithmetic F) where
  -- A row that passes the tests.
  pub record IsChecked (p : Place F.Double) : Type 0 where
    pub finite_x : F.is_finite p.x ≡ true
    pub finite_y : F.is_finite p.y ≡ true
    pub finite_w : F.is_finite p.w ≡ true
    pub finite_h : F.is_finite p.h ≡ true
    pub wide : F.is_not_positive p.w ≡ false
    pub high : F.is_not_positive p.h ≡ false
    pub coded : 1 ≤ p.keycode
    pub code_bound : p.keycode ≤ 0x2ff
    pub code_fn_bound : p.keycode_fn ≤ 0x2ff

  pub check_key-IsChecked :
      (v : Variables F.Double) (p : Place F.Double) → check_key F A v ≡ ok p → IsChecked p
  unfolding check_key
  check_key-IsChecked v p e = ground (arith, e)

  key_of-IsUsable :
      (p : Place F.Double) (e : Edges F.Double) (key : Key)
      → IsChecked p
      → key_of F A p e ≡ ok key
      → IsUsable key
  unfolding key_of
  key_of-IsUsable p e key c k = ground (arith, k, c.coded, c.code_bound, c.code_fn_bound)

  add_key-key_of :
      (p : Place F.Double) (o : Option (Edges F.Double)) (key : Key)
      → add_key F A p o ≡ ok (some key)
      → (e : Edges F.Double) × (o ≡ some e) × (key_of F A p e ≡ ok key)
  add_key-key_of p none key e = absurd (cc e)
  add_key-key_of p (some edges) key e =
      let (k, g, h) = bind-ok (key_of F A p edges) (λ k. ok (some k)) (some key) e in
      (edges, refl, cc (g, h))

  -- How a row becomes a key.
  pub load_key_steps :
      (config : HardwareConfig F) (v : Variables F.Double) (key : Key)
      → load_key F A config v ≡ ok (some key)
      → (p : Place F.Double) × (e : Edges F.Double) × (check_key F A v ≡ ok p)
        × (edges_of F A config p ≡ some e)
        × (key_of F A p e ≡ ok key)
  unfolding load_key
  load_key_steps config v key e =
      let (p, c, f) = bind-ok (check_key F A v) _ (some key) e in
      let (edges, o, k) = add_key-key_of p (edges_of F A config p) key f in (p, edges, c, o, k)

  load_key-IsUsable :
      (config : HardwareConfig F) (v : Variables F.Double) (key : Key)
      → load_key F A config v ≡ ok (some key)
      → IsUsable key
  load_key-IsUsable config v key e =
      let (p, edges, c, o, k) = load_key_steps config v key e in
      key_of-IsUsable p edges key (check_key-IsChecked v p c) k

  -- The rows of a file, read one after the other, give these keys.
  pub data Loads (config : HardwareConfig F)
      : Csv (LayoutRow F.Double) → Variables F.Double → List Key → Type 0 where
    at_end : {v : Variables F.Double} → Loads config finished v []
    next_key :
        {r : LayoutRow F.Double} {csv : Csv (LayoutRow F.Double)} {v : Variables F.Double}
        {key : Key} {keys : List Key}
        → load_key F A config (read_into F A r v) ≡ ok (some key)
        → Loads config csv (read_into F A r v) keys
        → Loads config (row r csv) v (key ∷ keys)

  pub Loads-IsUsable :
      {config : HardwareConfig F} {csv : Csv (LayoutRow F.Double)} {v : Variables F.Double}
      {keys : List Key}
      → Loads config csv v keys
      → All IsUsable keys × (length keys ≡ rows csv)
  Loads-IsUsable at_end = (tt, refl)
  Loads-IsUsable {config} (next_key {r = r} {v = v} {key = key} e l) =
      let (all, n) = Loads-IsUsable l in
      ((load_key-IsUsable config (read_into F A r v) key e, all), ap suc n)

  or_stop_goes_on :
      (layout keys : List Key) (o : Option Key) (next : Key → Result (List Key × Bool))
      → or_stop F A layout o next ≡ ok (keys, true)
      → (key : Key) × (o ≡ some key) × (next key ≡ ok (keys, true))
  or_stop_goes_on layout keys none next e = absurd (cc e)
  or_stop_goes_on layout keys (some key) next e = (key, refl, e)

  load_rows-Loads :
      (config : HardwareConfig F) (csv : Csv (LayoutRow F.Double)) (v : Variables F.Double)
      (layout keys : List Key)
      → load_rows F A config csv v layout ≡ ok (keys, true)
      → (more : List Key) × (keys ≡ layout ++ more)
        × (is_cons keys ≡ true)
        × Loads config csv v more
  unfolding load_rows
  load_rows-Loads config finished v layout keys e =
      let l : layout ≡ keys = ap (λ r. r.0) (ok-injective e) in
      (
        [],
        sym l ∙ sym (append-nil layout),
        ap is_cons (sym l) ∙ ap (λ r. r.1) (ok-injective e),
        at_end,
      )
  load_rows-Loads config (failed f) v layout keys e = absurd (cc e)
  load_rows-Loads config (row r csv) v layout keys e =
      let (o, l, f) = bind-ok (load_key F A config (read_into F A r v)) _ (keys, true) e in
      let (key, s, g) = or_stop_goes_on layout keys o _ f in
      let (more, k, n, loads) =
        load_rows-Loads config csv (read_into F A r v) (layout ++ (key ∷ [])) keys g in
      (key ∷ more, k ∙ append_assoc layout (key ∷ []) more, n, next_key (l ∙ ap ok s) loads)

  Loads-load_rows :
      {config : HardwareConfig F} {csv : Csv (LayoutRow F.Double)} {v : Variables F.Double}
      {more : List Key} (layout : List Key)
      → Loads config csv v more
      → load_rows F A config csv v layout ≡ ok (layout ++ more, is_cons (layout ++ more))
  unfolding load_rows
  Loads-load_rows layout at_end = ap (λ l. ok (l, is_cons l)) (sym (append-nil layout))
  Loads-load_rows {config} layout
        (next_key {r = r} {csv = csv} {v = v} {key = key} {keys = keys} e l) =
      rw (e, load_rows)
        (Loads-load_rows (layout ++ (key ∷ [])) l
          ∙ ap (λ l. ok (l, is_cons l)) (append_assoc layout (key ∷ []) keys))

  -- The constructor of FakeKeyboard accepts a layout file exactly if each row of it gives a key and
  -- there is one row at least; layout_ has then the keys of the rows, in their order.
  pub make_layout_iff :
      (path : String) (config : HardwareConfig F) (csv : Csv (LayoutRow F.Double)) (keys : List Key)
      → (make_layout F A path config csv ≡ ok keys)
        ↔ (Loads config csv (unread F A) keys × (is_cons keys ≡ true))
  unfolding make_layout load_layout
  make_layout_iff path config csv keys = (
    (λ e.
        let (loaded, l, f) = bind-ok (load_rows F A config csv (unread F A) []) _ keys e in
        let t : loaded.1 ≡ true = ground (arith, f) in
        let k : loaded.0 ≡ keys = ground (arith, f) in
        let (more, m, n, loads) =
          load_rows-Loads config csv (unread F A) [] keys
            (l ∙ ap ok (ap (λ a. (loaded.0, a)) t ∙ ap (λ a. (a, true)) k)) in
        (subst (Loads config csv (unread F A)) (sym m) loads, n)),
    λ p. rw (Loads-load_rows [] p.0, p.1) refl,
  )

  -- Every key of the layout of a new FakeKeyboard is usable: its area on the sensor is not empty,
  -- its code is from 1 to KEY_MAX and its code with Fn is at most KEY_MAX; and the layout has as
  -- many keys as the file has rows, one at least.
  pub make_layout-IsUsable :
      (path : String) (config : HardwareConfig F) (csv : Csv (LayoutRow F.Double)) (keys : List Key)
      → make_layout F A path config csv ≡ ok keys
      → All IsUsable keys × (length keys ≡ rows csv) × (1 ≤ rows csv)
  make_layout-IsUsable path config csv keys e =
      let (loads, n) = (make_layout_iff path config csv keys).0 e in
      let (all, l) = Loads-IsUsable loads in (all, l, omega (arith, l, is_cons-length keys n))

-- ===== src/Supervisor/Showing.antt =====
-- The touchpad worker, from the body that main gives it to the loop of Consume.
use Prim.Native.String.{String}
use mathlib.Core.Path.{subst}
use halo_keyboard.Prelude.{
  ℕ, ℤ, ◌≡◌, sym, ap, true, not, ◌&&◌, List, [], some, find, All, get_elem?, refl,
}
use halo_keyboard.Input.{InputEvent}
use halo_keyboard.System.{Os, Syscall, ok, bind-ok, ok-injective, Safe-ok}
use halo_keyboard.Floating.{Floating, Arithmetic, IsMonotone}
use halo_keyboard.Csv.{Csv}
use halo_keyboard.Hardware.{HardwareConfig}
use halo_keyboard.Hardware.Scale.{IsMeasured}
use halo_keyboard.Uinput.Device.{init}
use halo_keyboard.Uinput.Writes.{Ends, Ends-map}
use halo_keyboard.Evdev
use halo_keyboard.Evdev.{no_timeout, get_next_event}
use halo_keyboard.Evdev.Polling.{get_next_event-Safe}
use halo_keyboard.Multitouch.EventKey.{event_key_eq}
use halo_keyboard.Multitouch.Slot.{Slot}
use halo_keyboard.Multitouch.Frames.{is_report, after}
use halo_keyboard.Touchpad.Region.{Touchpad, contains}
use halo_keyboard.Touchpad.Passing.{axis, source_code, value_shown, IsPassed}
use halo_keyboard.Touchpad.Buttons.{IsSteady}
use halo_keyboard.Touchpad.Layout.{TouchpadRow, Loaded, make_layout}
use halo_keyboard.Touchpad.Geometry.{IsUpright, make_layout-IsUpright}
use halo_keyboard.Touchpad.Setup.{set_up}
use halo_keyboard.Touchpad.Loop.{consume_once, Loop}
use halo_keyboard.Touchpad.Reading.{IsPlain, reading, events_written}
use halo_keyboard.Touchpad.Sessions.{
  new_touchpad, set_up-IsQuiet, new_touchpad-IsSteady, Loop-IsSteady, polled-IsSteady,
}
use halo_keyboard.Touchpad.Showing.{round_reads_back, IsQuiet-IsPlain, Loop-IsPlain, IsPoll-IsPlain}
use halo_keyboard.Supervisor.Children.{start_touchpad, touch_sensor_device_path}

-- A steady touchpad that has lost no event, with the region of the layout.
abbrev IsShowing :
    (F : Floating)
    → Arithmetic F
    → HardwareConfig F
    → String
    → Csv (TouchpadRow F.Double)
    → Touchpad
    → Type 0
IsShowing F A config layout_path csv tp =
    IsSteady tp
    × All IsPlain tp.trace
    × (loaded : Loaded F.Double) × (make_layout F A layout_path config csv ≡ ok loaded)
    × (tp.region ≡ loaded.region)

touchpad_worker-IsShowing :
    (F : Floating) (A : Arithmetic F) (config : HardwareConfig F) (os : Os) (layout_path : String)
    (csv : Csv (TouchpadRow F.Double)) (source_fd : ℤ) (tp0 tp : Touchpad)
    → start_touchpad F A os config layout_path csv ≡ ok (source_fd, tp0)
    → Loop os source_fd tp0 tp
    → IsShowing F A config layout_path csv tp
unfolding start_touchpad
touchpad_worker-IsShowing F A config os layout_path csv source_fd tp0 tp e l =
    let (loaded, k, e1) = bind-ok (make_layout F A layout_path config csv) _ (source_fd, tp0) e in
    let (started, s, e2) =
      bind-ok
        (set_up F A os touch_sensor_device_path "Halo Keyboard Touchpad" loaded Evdev.init init [])
        _ (source_fd, tp0) e1 in
    let new = new_touchpad loaded.region started.1.uinput_fd started.2 in
    let new_is : new ≡ tp0 = ap (λ r. r.1) (ok-injective e2) in
    let q =
      set_up-IsQuiet F A os touch_sensor_device_path "Halo Keyboard Touchpad" loaded Evdev.init
        started.0 init started.1 started.2 s in
    let v = new_touchpad-IsSteady loaded.region started.1.uinput_fd started.2 q in
    subst (λ t. Loop os source_fd t tp → IsShowing F A config layout_path csv tp) new_is
      (λ l'.
        let (w, g) = Loop-IsSteady v l' in
        (w, Loop-IsPlain v (IsQuiet-IsPlain started.2 q) l', loaded, k, g))
      l

-- In an arithmetic that keeps the order, on a measured sensor, with any system and any file: the
-- touchpad worker, once it loops in Consume, is steady, which says that on the virtual device no
-- slot holds a contact that is not a member of the region, and its region is not inside out.
pub touchpad_worker_mirrors :
    (F : Floating) (A : Arithmetic F) (m : IsMonotone F A) (config : HardwareConfig F)
    (c : IsMeasured F A config) (os : Os) (layout_path : String) (csv : Csv (TouchpadRow F.Double))
    (source_fd : ℤ) (tp0 tp : Touchpad)
    → start_touchpad F A os config layout_path csv ≡ ok (source_fd, tp0)
    → Loop os source_fd tp0 tp
    → IsSteady tp × IsUpright config.rotation tp.region
touchpad_worker_mirrors F A m config c os layout_path csv source_fd tp0 tp e l =
    let (v, p, loaded, k, g) =
      touchpad_worker-IsShowing F A config os layout_path csv source_fd tp0 tp e l in
    (
      v,
      subst (IsUpright config.rotation) (sym g)
          (make_layout-IsUpright F A m config c layout_path csv loaded k),
    )

-- With any system, any arithmetic and any file: when the touchpad worker polls the end of a frame
-- while no events are being dropped, the round of Consume returns, or a write was incomplete.
-- Another MtStateMachine that then gets all events that the worker has written reads, in every slot
-- whose contact is in the region, on each axis that is passed on and for whose source the slot has
-- a value: for a position the distance of that value from the edge of the region that is the left
-- or the upper one on the turned sensor, and for another axis the value itself.
pub touchpad_worker_reads_back :
    (F : Floating) (A : Arithmetic F) (config : HardwareConfig F) (os : Os) (layout_path : String)
    (csv : Csv (TouchpadRow F.Double)) (source_fd : ℤ) (tp0 tp : Touchpad) (ev : InputEvent)
    (trace : List Syscall) (code : ℕ)
    → start_touchpad F A os config layout_path csv ≡ ok (source_fd, tp0)
    → Loop os source_fd tp0 tp
    → get_next_event os source_fd no_timeout tp.trace ≡ ok (some ev, trace)
    → (is_report ev && not tp.sm.dropping_events) ≡ true
    → IsPassed code
    → Ends os
        (λ tp'.
          (i : ℕ) (slot : Slot) (v : ℤ)
          → get_elem? tp.sm.slots i ≡ some slot
          → contains tp.region slot ≡ true
          → find (axis (source_code tp.region code)) slot ≡ some v
          → reading (after (events_written tp'.trace)) i code ≡ value_shown tp.region code v)
        (consume_once os source_fd tp)
unfolding consume_once
touchpad_worker_reads_back F A config os layout_path csv source_fd tp0 tp ev trace code e l r w s =
    let (v, p, loaded, k, g) =
      touchpad_worker-IsShowing F A config os layout_path csv source_fd tp0 tp e l in
    let polled = Safe-ok (get_next_event-Safe os source_fd no_timeout tp.trace refl) r in
    rw r (
      Ends-map
        (round_reads_back os ev (record tp { trace = trace }) code
          (polled-IsSteady tp trace polled v) (IsPoll-IsPlain polled p) w s)
        λ tp' q. q.1)

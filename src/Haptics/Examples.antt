-- ===== src/Haptics/Examples.antt =====
-- Evaluations of the haptics modules on a small system, and instances of their theorems.
use halo_keyboard.Prelude.{
  ℤ, pos, negsuc, pos_part, ◌*◌, ◌/◌, ◌≡◌, refl, true, List, [], ◌∷◌, find, insert, ltb_ℤ, leb_ℤ,
  arith,
}
use halo_keyboard.Input.{ev_ff}
use halo_keyboard.System.{Os, Syscall, write_event, ioctl, Reply, Filled, nothing, filled_id, ok}
use halo_keyboard.Haptics.Driver.{open_device, close_fd_if_valid}
use halo_keyboard.Haptics.Manager.{TouchFfManager, finger_down, position_along, event_triggered}
use halo_keyboard.Floating.{Floating}
use halo_keyboard.Haptics.Upload.{upload, register_ff, start_drivers, make_manager}
use halo_keyboard.Haptics.Playing.{IsReady, event_triggered_plays, make_manager-IsReady}

-- Magnitudes in thousandths.
abbrev thousandths : Floating
thousandths = record {
  Double = ℤ;
  Single = ℤ;
  is_finite = λ x. true;
  is_negative = λ x. ltb_ℤ x (pos 0);
  is_not_positive = λ x. leb_ℤ x (pos 0);
  exceeds_one = λ x. ltb_ℤ (pos 1000) x;
  is_finite_single = λ x. true;
  is_negative_single = λ x. ltb_ℤ x (pos 0);
  exceeds_one_single = λ x. ltb_ℤ (pos 1000) x;
  to_single = λ x. x;
  strong_magnitude = λ x. pos_part x * 0xffff / 1000;
}

abbrev reply : ℤ → Filled → Reply
reply n filled = record { ret = n; errno = 0; filled = filled }

-- The left motor cannot be opened; the right one has the descriptor 4 and gives the id 9.
abbrev os : Os
os [] call = reply (negsuc 0) nothing
os (call' ∷ trace) (ioctl fd request) = reply (pos 0) (filled_id (pos 9))
os (call' ∷ trace) _ = reply (pos 4) nothing

abbrev right_only : TouchFfManager
right_only = record {
  left_driver = record { fd = negsuc 0 };
  right_driver = record { fd = pos 4 };
  left_driver_fflib = [];
  right_driver_fflib = (finger_down, pos 9) ∷ [];
  touch_max_x = pos 1920;
  touch_rotation = pos 0;
}

abbrev started : TouchFfManager × List Syscall
started = start_drivers thousandths os (pos 1920) (pos 0) (pos 500) (pos 12) []

right_only_started : started.0 ≡ right_only
unfolding start_drivers register_ff upload open_device close_fd_if_valid insert
right_only_started = refl

made : make_manager thousandths os (pos 1920) (pos 1080) (pos 0) (pos 500) (pos 12) [] ≡ ok started
unfolding make_manager
made = refl

make_manager-IsReady_example : IsReady started.0
make_manager-IsReady_example =
    make_manager-IsReady thousandths os (pos 1920) (pos 1080) (pos 0) (pos 500) (pos 12) [] started
      made

right_only-IsReady : IsReady right_only
unfolding find
right_only-IsReady = record {
  left = λ event id e. ground arith;
  right = λ event id e. ground arith;
  width = omega arith;
  rotation = refl;
}

event_triggered_plays_example :
    event_triggered os right_only finger_down (pos 1500) (pos 10) []
    ≡ write_event (pos 4) (record { type = ev_ff; code = 9; value = pos 1 }) ∷ []
unfolding find position_along
event_triggered_plays_example =
    event_triggered_plays os right_only finger_down (pos 1500) (pos 10) [] right_only-IsReady

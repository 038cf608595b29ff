-- ===== src/Keyboard/State.antt =====
-- The state of a FakeKeyboard.
use halo_keyboard.Prelude.{ℕ, ℤ, negsuc, Bool, List, Map}
use halo_keyboard.System.{Syscall}
use halo_keyboard.Haptics.Manager.{TouchFfManager}
use halo_keyboard.Multitouch.StateMachine.{MtStateMachine}
use halo_keyboard.Keyboard.Key.{Key}
use halo_keyboard.Keyboard.Time.{Timespec}
use halo_keyboard.Keyboard.Queue.{Event}

abbrev pub event_delay_ms : ℕ
event_delay_ms = 50

abbrev pub no_key : ℤ
no_key = negsuc 0

abbrev pub old_tid : ℤ
old_tid = negsuc 998

pub data RejectionStatus : Type 0 where
  not_rejected_yet : RejectionStatus
  touchdown_off_key : RejectionStatus
  moved_off_key : RejectionStatus
  pressure : RejectionStatus
  touch_diameter : RejectionStatus
  already_complete : RejectionStatus

pub record FingerData : Type 0 where
  pub arrival_time : Timespec
  pub max_pressure : ℤ
  pub max_touch_major : ℤ
  pub starting_key_number : ℤ
  pub event_code : ℕ
  pub down_sent : Bool
  pub rejection_status : RejectionStatus

-- `fd` is the descriptor of the uinput device; `trace` are the system calls made so far, newest
-- first.
pub record Keyboard : Type 0 where
  pub ff_manager : TouchFfManager
  pub layout : List Key
  pub sm : MtStateMachine
  pub pending_events : List Event
  pub finger_data : Map ℤ FingerData
  pub fn_key_pressed : Bool
  pub fd : ℤ
  pub trace : List Syscall

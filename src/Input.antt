-- ===== src/Input.antt =====
-- The input events of <linux/input.h> and the codes of them that the program names, with the
-- kernel's values. `type` and `code` are unsigned 16-bit fields, `value` is a signed 32-bit field.
use halo_keyboard.Prelude.{ℕ, ℤ}

pub record InputEvent : Type 0 where
  pub type : ℕ
  pub code : ℕ
  pub value : ℤ

abbrev pub ev_syn : ℕ
ev_syn = 0x00

abbrev pub ev_key : ℕ
ev_key = 0x01

abbrev pub ev_abs : ℕ
ev_abs = 0x03

abbrev pub ev_ff : ℕ
ev_ff = 0x15

abbrev pub syn_report : ℕ
syn_report = 0

abbrev pub syn_dropped : ℕ
syn_dropped = 3

abbrev pub abs_mt_slot : ℕ
abs_mt_slot = 0x2f

abbrev pub abs_mt_touch_major : ℕ
abs_mt_touch_major = 0x30

abbrev pub abs_mt_touch_minor : ℕ
abs_mt_touch_minor = 0x31

abbrev pub abs_mt_position_x : ℕ
abs_mt_position_x = 0x35

abbrev pub abs_mt_position_y : ℕ
abs_mt_position_y = 0x36

abbrev pub abs_mt_tracking_id : ℕ
abs_mt_tracking_id = 0x39

abbrev pub abs_mt_pressure : ℕ
abs_mt_pressure = 0x3a

abbrev pub key_space : ℕ
key_space = 57

abbrev pub key_fn : ℕ
key_fn = 0x1d0

abbrev pub btn_tool_finger : ℕ
btn_tool_finger = 0x145

abbrev pub btn_touch : ℕ
btn_touch = 0x14a

abbrev pub btn_tool_doubletap : ℕ
btn_tool_doubletap = 0x14d

abbrev pub btn_tool_tripletap : ℕ
btn_tool_tripletap = 0x14e

abbrev pub btn_tool_quadtap : ℕ
btn_tool_quadtap = 0x14f

abbrev pub abs_x : ℕ
abs_x = 0x00

abbrev pub abs_y : ℕ
abs_y = 0x01

abbrev pub ev_cnt : ℕ
ev_cnt = 0x20

abbrev pub abs_cnt : ℕ
abs_cnt = 0x40

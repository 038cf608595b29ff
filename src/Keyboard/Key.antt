-- ===== src/Keyboard/Key.antt =====
-- class Key of fake_keyboard.h. Event codes are natural numbers: LoadLayout accepts no other.
use halo_keyboard.Prelude.{ℕ, ℤ, Bool, ◌&&◌, ltb_ℤ, leb_ℤ}

pub record Key : Type 0 where
  pub event_code : ℕ
  pub event_code_fn : ℕ
  pub xmin : ℤ
  pub xmax : ℤ
  pub ymin : ℤ
  pub ymax : ℤ

unfoldable pub contains : Key → ℤ → ℤ → Bool
contains k x y = ltb_ℤ x k.xmax && leb_ℤ k.xmin x && ltb_ℤ y k.ymax && leb_ℤ k.ymin y

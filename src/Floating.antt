-- ===== src/Floating.antt =====
-- Floating-point numbers of the machine: what src/haptics, src/hardware_config.cc and
-- the layouts of src/fake_keyboard.cc and src/fake_touchpad.cc ask of them.
pub mod Whole
use halo_keyboard.Prelude.{ℕ, ℤ, ◌≤ℤ◌, ◌≡◌, Bool, true, false, Option, some}

-- `double` and `float`: std::isfinite, `< 0`, `<= 0`, `> 1`, the conversion of an argument, and the
-- clamped magnitude times kMaxDriverInput as an unsigned short.
pub record Floating : Type 1 where
  pub Double : Type 0
  pub Single : Type 0
  pub is_finite : Double → Bool
  pub is_negative : Double → Bool
  pub is_not_positive : Double → Bool
  pub exceeds_one : Double → Bool
  pub is_finite_single : Single → Bool
  pub is_negative_single : Single → Bool
  pub exceeds_one_single : Single → Bool
  pub to_single : Double → Single
  pub strong_magnitude : Single → ℕ

-- The arithmetic on `double` of the layouts: `truncated` is the conversion to int, `nearest` is
-- std::lround as an int, and `none` is a value that does not fit.
pub record Arithmetic (F : Floating) : Type 0 where
  pub of_int : ℤ → F.Double
  pub plus : F.Double → F.Double → F.Double
  pub minus : F.Double → F.Double → F.Double
  pub times : F.Double → F.Double → F.Double
  pub over : F.Double → F.Double → F.Double
  pub le : F.Double → F.Double → Bool
  pub truncated : F.Double → Option ℤ
  pub nearest : F.Double → Option ℤ

-- What IEEE 754 says of the order: rounded operations keep it. A NaN is not at most itself; a sum
-- or a difference may overflow to an infinity, so the operands that must not are asked to be
-- finite.
pub record IsMonotone (F : Floating) (A : Arithmetic F) : Type 0 where
  pub plus_number :
      (a b : F.Double)
      → F.is_finite a ≡ true
      → F.is_finite b ≡ true
      → A.le (A.plus a b) (A.plus a b) ≡ true
  pub plus_positive :
      (a w : F.Double)
      → A.le a a ≡ true
      → F.is_finite w ≡ true
      → F.is_not_positive w ≡ false
      → A.le a (A.plus a w) ≡ true
  pub le_total :
      (a b : F.Double)
      → F.is_finite a ≡ true
      → F.is_finite b ≡ true
      → A.le b a ≡ false
      → A.le a b ≡ true
  pub of_int_le : (i j : ℤ) → i ≤ℤ j → A.le (A.of_int i) (A.of_int j) ≡ true
  pub finite_number : (a : F.Double) → F.is_finite a ≡ true → A.le a a ≡ true
  pub plus_le :
      (a b c : F.Double)
      → F.is_finite c ≡ true
      → A.le a b ≡ true
      → A.le (A.plus a c) (A.plus b c) ≡ true
  pub le_plus :
      (a b c : F.Double)
      → F.is_finite c ≡ true
      → A.le a b ≡ true
      → A.le (A.plus c a) (A.plus c b) ≡ true
  pub minus_le :
      (a b c : F.Double)
      → F.is_finite c ≡ true
      → A.le a b ≡ true
      → A.le (A.minus c b) (A.minus c a) ≡ true
  pub times_le :
      (a b c : F.Double)
      → F.is_finite c ≡ true
      → F.is_not_positive c ≡ false
      → A.le a b ≡ true
      → A.le (A.times a c) (A.times b c) ≡ true
  pub truncated_le :
      (a b : F.Double) (i j : ℤ)
      → A.le a b ≡ true
      → A.truncated a ≡ some i
      → A.truncated b ≡ some j
      → i ≤ℤ j

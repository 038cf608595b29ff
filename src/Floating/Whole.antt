-- ===== src/Floating/Whole.antt =====
-- Whole numbers in the place of floating-point numbers: the laws asked of an arithmetic can be met.
use native.Mathlib.Nat.{mul-le-mul_left, mul_comm}
use halo_keyboard.Prelude.{
  ℕ, suc, ℤ, pos, negsuc, pos_part, ◌*◌, ◌≤◌, ◌≤ℤ◌, true, some, arith, +ℤ_parts, -ℤ_parts, ltb_ℤ,
  leb_ℤ, ◌+ℤ◌, ◌-ℤ◌, scale_ℤ, div_ℤ,
}
use halo_keyboard.Floating.{Floating, Arithmetic, IsMonotone}

abbrev pub whole : Floating
whole = record {
  Double = ℤ;
  Single = ℤ;
  is_finite = λ x. true;
  is_negative = λ x. ltb_ℤ x (pos 0);
  is_not_positive = λ x. leb_ℤ x (pos 0);
  exceeds_one = λ x. ltb_ℤ (pos 1) x;
  is_finite_single = λ x. true;
  is_negative_single = λ x. ltb_ℤ x (pos 0);
  exceeds_one_single = λ x. ltb_ℤ (pos 1) x;
  to_single = λ x. x;
  strong_magnitude = λ x. 0;
}

-- Products and quotients by positive numbers only.
abbrev pub on_whole : Arithmetic whole
on_whole = record {
  of_int = λ i. i;
  plus = ◌+ℤ◌;
  minus = ◌-ℤ◌;
  times = λ a b. scale_ℤ a (pos_part b);
  over = λ a b. div_ℤ a (pos_part b);
  le = leb_ℤ;
  truncated = λ a. some a;
  nearest = λ a. some a;
}

mul_le : (m n k : ℕ) → m ≤ n → m * k ≤ n * k
mul_le m n k h = omega (arith, mul_comm m k, mul_comm n k, mul-le-mul_left k h)

scale_le : (a b : ℤ) (n : ℕ) → a ≤ℤ b → scale_ℤ a n ≤ℤ scale_ℤ b n
scale_le (pos a) (pos b) n h = ground (arith, mul_le a b n (omega arith))
scale_le (pos a) (negsuc b) n h = absurd (omega arith)
scale_le (negsuc a) (pos b) n h = ground arith
scale_le (negsuc a) (negsuc b) n h = ground (arith, mul_le (suc b) (suc a) n (omega arith))

pub whole-IsMonotone : IsMonotone whole on_whole
whole-IsMonotone = record {
  plus_number = λ a b f g. ground arith;
  plus_positive = λ a w h f p. ground (arith, +ℤ_parts a w);
  le_total = λ a b f g h. ground arith;
  of_int_le = λ i j h. ground arith;
  finite_number = λ a f. ground arith;
  plus_le = λ a b c f h. ground (arith, +ℤ_parts a c, +ℤ_parts b c);
  le_plus = λ a b c f h. ground (arith, +ℤ_parts c a, +ℤ_parts c b);
  minus_le = λ a b c f h. ground (arith, -ℤ_parts c a, -ℤ_parts c b);
  times_le = λ a b c f p h. ground (arith, scale_le a b (pos_part c) (ground arith));
  truncated_le = λ a b i j h e g. ground arith;
}

-- ===== src/Options/Examples.antt =====
-- Evaluations of ParseOptions, and instances of its theorems.
use Prim.Native.String.{String}
use halo_keyboard.Prelude.{ℤ, pos, ◌≡◌, refl, true, List, [], ◌∷◌, some, ltb_ℤ, leb_ℤ, arith}
use halo_keyboard.System.{Os, Syscall, nothing, ok}
use halo_keyboard.Floating.{Floating}
use halo_keyboard.Hardware.{HardwareConfig, load_hardware_config, validate}
use halo_keyboard.Haptics.Manager.{TouchFfManager}
use halo_keyboard.Haptics.Upload.{make_manager}
use halo_keyboard.Options.{
  Numbers, Options, success, error, request_of, magnitude_error, take_magnitude, take_duration,
  take_directory, parse_options,
}
use halo_keyboard.Options.Parsing.{
  IsAccepted, IsReport, parse_options-IsParsed, parse_options_starts,
}

-- Whole numbers.
abbrev whole : Floating
whole = record {
  Double = ℤ;
  Single = ℤ;
  is_finite = λ x. true;
  is_negative = λ x. ltb_ℤ x (pos 0);
  is_not_positive = λ x. leb_ℤ x (pos 0);
  exceeds_one = λ x. ltb_ℤ (pos 1) x;
  is_finite_single = λ x. true;
  is_negative_single = λ x. ltb_ℤ x (pos 0);
  exceeds_one_single = λ x. ltb_ℤ (pos 1) x;
  to_single = λ x. x;
  strong_magnitude = λ x. 0;
}

-- Every text is the number 1 or 20.
abbrev numbers : Numbers whole
numbers = record { parse_double = λ text x. (pos 1, true); parse_int = λ text n. (pos 20, true) }

-- The defaults of struct Options.
abbrev defaults : Options whole
defaults = record {
  debug_level = 0;
  haptic_magnitude = pos 1;
  haptic_duration_ms = pos 12;
  config_directory = "";
}

abbrev arguments : List String
arguments = "--debug" ∷ "-m" ∷ "1.0" ∷ "-D" ∷ "20" ∷ "-c" ∷ "/etc" ∷ []

parsed : parse_options whole numbers arguments defaults "" ≡ (
  success,
  record {
    debug_level = 1;
    haptic_magnitude = pos 1;
    haptic_duration_ms = pos 20;
    config_directory = "/etc";
  },
  "",
)
unfolding parse_options request_of take_magnitude take_duration take_directory
parsed = refl

-- The option that misses its value gets the text of a bad value.
magnitude_missing :
    parse_options whole numbers ("-m" ∷ []) defaults "" ≡ (error, defaults, magnitude_error)
unfolding parse_options request_of
magnitude_missing = refl

abbrev os : Os
os trace call = record { ret = pos 0; errno = 0; filled = nothing }

abbrev config : HardwareConfig whole
config = record {
  rotation = pos 270;
  res_x = pos 1080;
  res_y = pos 1920;
  width_mm = pos 120;
  height_mm = pos 215;
  left_margin_mm = pos 0;
  top_margin_mm = pos 3;
}

loaded : load_hardware_config whole "hardware.csv" (ok (some config)) ≡ ok config
unfolding load_hardware_config validate
loaded = refl

defaults-IsAccepted : IsAccepted whole numbers defaults
defaults-IsAccepted = record {
  finite = refl;
  not_negative = refl;
  not_large = refl;
  some_time = omega arith;
  short_time = omega arith;
}

parse_options-IsParsed_example :
    ((parse_options whole numbers arguments defaults "").0 ≡ success
      → IsAccepted whole numbers (parse_options whole numbers arguments defaults "").1)
    × ((parse_options whole numbers arguments defaults "").0 ≡ error
        → IsReport whole numbers (parse_options whole numbers arguments defaults "").2)
parse_options-IsParsed_example =
    parse_options-IsParsed whole numbers arguments defaults "" defaults-IsAccepted

parse_options_starts_example :
    (r : TouchFfManager × List Syscall) × (make_manager whole os
        (pos 1080)
        (pos 1920)
        (pos 270)
        (pos 1)
        (pos 20)
        []
      ≡ ok r)
unfolding parse_options request_of take_magnitude take_duration take_directory
parse_options_starts_example =
    parse_options_starts whole numbers arguments defaults "" "hardware.csv" (ok (some config))
      config os [] defaults-IsAccepted refl loaded

-- ===== src/Options.antt =====
-- options.h and options.cc: the command line.
pub mod Parsing
mod Examples
use Prim.Native.String.{String}
use Prim.Native.String
use Prim.Native.Nat.{Ordering}
use halo_keyboard.Prelude.{
  ℕ, ℤ, pos, ◌+◌, Bool, true, false, not, ◌&&◌, ◌||◌, List, [], ◌∷◌, ltb_ℤ, if◌then◌else◌,
}
use halo_keyboard.Floating.{Floating}

-- std::from_chars on the whole of a text: what `*value` holds after it, and whether the text was a
-- number in range up to its end.
pub record Numbers (F : Floating) : Type 0 where
  pub parse_double : String → F.Double → F.Double × Bool
  pub parse_int : String → ℤ → ℤ × Bool

pub record Options (F : Floating) : Type 0 where
  pub debug_level : ℕ
  pub haptic_magnitude : F.Double
  pub haptic_duration_ms : ℤ
  pub config_directory : String

pub data ParseResult : Type 0 where
  success help error : ParseResult

abbrev pub same_text : String → String → Bool
same_text a b = elim (String.compare a b) [ Ordering.eq ↦ true | _ ↦ false ]

-- What an argument asks for, by the tests of ParseOptions in their order.
pub data Request : Type 0 where
  ask_help ask_debug ask_magnitude ask_duration ask_directory unknown : Request

unfoldable pub request_of : String → Request
request_of argument =
    if same_text argument "-h" || same_text argument "--help"
    then ask_help
    else if same_text argument "-d" || same_text argument "--debug"
    then ask_debug
    else if same_text argument "-m" || same_text argument "--magnitude"
    then ask_magnitude
    else if same_text argument "-D" || same_text argument "--duration-ms"
    then ask_duration
    else if same_text argument "-c" || same_text argument "--config-directory"
    then ask_directory
    else unknown

abbrev pub magnitude_error : String
magnitude_error = "haptic magnitude must be a number between 0.0 and 1.0"

abbrev pub duration_error : String
duration_error = "haptic duration must be between 1 and 1000 milliseconds"

abbrev pub directory_error : String
directory_error = "configuration directory must not be empty"

module _ (F : Floating) (N : Numbers F) where
  abbrev State : Type 0
  State = Options F × String

  abbrev Parsed : Type 0
  Parsed = ParseResult × Options F × String

  -- Whether the value of the option is good, and the options with `*value` written.
  unfoldable pub take_magnitude : String → Options F → Options F × Bool
  take_magnitude value options =
      let (magnitude, parsed) = N.parse_double value options.haptic_magnitude in
      (
        record options { haptic_magnitude = magnitude },
        parsed
            && F.is_finite magnitude
            && not (F.is_negative magnitude)
            && not (F.exceeds_one magnitude),
      )

  unfoldable pub take_duration : String → Options F → Options F × Bool
  take_duration value options =
      let (duration_ms, parsed) = N.parse_int value options.haptic_duration_ms in
      (
        record options { haptic_duration_ms = duration_ms },
        parsed && not (ltb_ℤ duration_ms (pos 1)) && not (ltb_ℤ (pos 1000) duration_ms),
      )

  unfoldable pub take_directory : String → Options F → Options F × Bool
  take_directory value options =
      if same_text value ""
      then (options, false)
      else (record options { config_directory = value }, true)

  -- `*error` of TakeValue when the option is the last argument.
  abbrev pub missing_value : String → String
  missing_value option = String.◌++◌ "missing value for " option

  -- The failure of an option: its own message replaces what TakeValue wrote.
  abbrev fail_with : String → Options F → String → Parsed
  fail_with message options written = (error, options, message)

  -- ParseOptions for pointers that are not null: the result, the options and the error text. The
  -- loop goes over the arguments; an option takes its value off the rest of them.
  unfoldable pub parse_options : List String → Options F → String → Parsed
  parse_options [] options text = (success, options, text)
  parse_options (argument ∷ []) options text = elim (request_of argument) [
    | ask_help ↦ (help, options, text)
    | ask_debug ↦ (success, record options { debug_level = options.debug_level + 1 }, text)
    | ask_magnitude ↦ fail_with magnitude_error options (missing_value argument)
    | ask_duration ↦ fail_with duration_error options (missing_value argument)
    | ask_directory ↦ fail_with directory_error options (missing_value argument)
    | unknown ↦ (error, options, String.◌++◌ "unknown option: " argument)
  ]
  parse_options (argument ∷ value ∷ arguments) options text = elim (request_of argument) [
    | ask_help ↦ (help, options, text)
    | ask_debug ↦
        parse_options (value ∷ arguments) (record options { debug_level = options.debug_level + 1 })
          text
    | ask_magnitude ↦
        (let taken = take_magnitude value options in
          elim taken.1 [
            | true ↦ parse_options arguments taken.0 text
            | false ↦ fail_with magnitude_error taken.0 text
          ])
    | ask_duration ↦
        (let taken = take_duration value options in
          elim taken.1 [
            | true ↦ parse_options arguments taken.0 text
            | false ↦ fail_with duration_error taken.0 text
          ])
    | ask_directory ↦
        (let taken = take_directory value options in
          elim taken.1 [
            | true ↦ parse_options arguments taken.0 text
            | false ↦ fail_with directory_error taken.0 text
          ])
    | unknown ↦ (error, options, String.◌++◌ "unknown option: " argument)
  ]

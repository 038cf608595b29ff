-- ===== src/Options/Parsing.antt =====
-- ParseOptions: what it accepts, and what it reports.
use Prim.Native.String.{String}
use Prim.Native.String
use halo_keyboard.Prelude.{
  pos, ◌+◌, ◌≤ℤ◌, ◌≡◌, refl, true, false, List, [], ◌∷◌, ◌⊎◌, inl, inr, Bool-cases, arith, Option,
}
use halo_keyboard.System.{Os, Syscall, Result, ok}
use halo_keyboard.Floating.{Floating}
use halo_keyboard.Hardware.{HardwareConfig, load_hardware_config}
use halo_keyboard.Hardware.Loading.{make_manager_loaded}
use halo_keyboard.Haptics.Manager.{TouchFfManager}
use halo_keyboard.Haptics.Upload.{make_manager}
use halo_keyboard.Options.{
  Numbers, Options, ParseResult, success, error, Request, ask_help, ask_debug, ask_magnitude,
  ask_duration, ask_directory, unknown, request_of, magnitude_error, duration_error,
  directory_error, take_magnitude, take_duration, take_directory, parse_options,
}

module _ (F : Floating) (N : Numbers F) where
  pub record IsAccepted (o : Options F) : Type 0 where
    pub finite : F.is_finite o.haptic_magnitude ≡ true
    pub not_negative : F.is_negative o.haptic_magnitude ≡ false
    pub not_large : F.exceeds_one o.haptic_magnitude ≡ false
    pub some_time : pos 1 ≤ℤ o.haptic_duration_ms
    pub short_time : o.haptic_duration_ms ≤ℤ pos 1000

  -- The text names an option group or an unknown option.
  abbrev pub IsReport : String → Type 0
  IsReport text =
      (text ≡ magnitude_error)
      ⊎ (text ≡ duration_error)
      ⊎ (text ≡ directory_error)
      ⊎ ((argument : String) × (text ≡ String.◌++◌ "unknown option: " argument))

  abbrev IsParsed : ParseResult × Options F × String → Type 0
  IsParsed r = (r.0 ≡ success → IsAccepted r.1) × (r.0 ≡ error → IsReport r.2)

  take_magnitude-IsAccepted :
      (value : String) (o : Options F)
      → IsAccepted o
      → (take_magnitude F N value o).1 ≡ true
      → IsAccepted (take_magnitude F N value o).0
  unfolding take_magnitude
  take_magnitude-IsAccepted value o v h = record {
    finite = ground (arith, h);
    not_negative = ground (arith, h);
    not_large = ground (arith, h);
    some_time = v.some_time;
    short_time = v.short_time;
  }

  take_duration-IsAccepted :
      (value : String) (o : Options F)
      → IsAccepted o
      → (take_duration F N value o).1 ≡ true
      → IsAccepted (take_duration F N value o).0
  unfolding take_duration
  take_duration-IsAccepted value o v h = record {
    finite = v.finite;
    not_negative = v.not_negative;
    not_large = v.not_large;
    some_time = ground (arith, h);
    short_time = ground (arith, h);
  }

  take_directory-IsAccepted :
      (value : String) (o : Options F) → IsAccepted o → IsAccepted (take_directory F N value o).0
  unfolding take_directory
  take_directory-IsAccepted value o v = record {
    finite = ground (arith, v.finite);
    not_negative = ground (arith, v.not_negative);
    not_large = ground (arith, v.not_large);
    some_time = ground (arith, v.some_time);
    short_time = ground (arith, v.short_time);
  }

  debugged-IsAccepted :
      (o : Options F) → IsAccepted o → IsAccepted (record o { debug_level = o.debug_level + 1 })
  debugged-IsAccepted o v = record {
    finite = v.finite;
    not_negative = v.not_negative;
    not_large = v.not_large;
    some_time = v.some_time;
    short_time = v.short_time;
  }

  -- One option with something after it, given what the rest of the arguments leave.
  option-IsParsed :
      (argument value : String) (arguments : List String) (o : Options F) (text : String)
      → IsAccepted o
      → ((o' : Options F)
          → IsAccepted o'
          → IsParsed (parse_options F N (value ∷ arguments) o' text))
      → ((o' : Options F) → IsAccepted o' → IsParsed (parse_options F N arguments o' text))
      → (k : Request) → request_of argument ≡ k
      → IsParsed (parse_options F N (argument ∷ value ∷ arguments) o text)
  unfolding parse_options
  option-IsParsed argument value arguments o text v d r ask_help e =
      rw (e, parse_options) ((λ h. cc h), λ h. cc h)
  option-IsParsed argument value arguments o text v d r ask_debug e =
      rw (e, parse_options) (d _ (debugged-IsAccepted o v))
  option-IsParsed argument value arguments o text v d r ask_magnitude e =
      elim (Bool-cases (take_magnitude F N value o).1) [
        | inl t ↦ rw (e, t, parse_options) (r _ (take_magnitude-IsAccepted value o v t))
        | inr t ↦ rw (e, t, parse_options) ((λ h. cc h), λ h. inl refl)
      ]
  option-IsParsed argument value arguments o text v d r ask_duration e =
      elim (Bool-cases (take_duration F N value o).1) [
        | inl t ↦ rw (e, t, parse_options) (r _ (take_duration-IsAccepted value o v t))
        | inr t ↦ rw (e, t, parse_options) ((λ h. cc h), λ h. inr (inl refl))
      ]
  option-IsParsed argument value arguments o text v d r ask_directory e =
      elim (Bool-cases (take_directory F N value o).1) [
        | inl t ↦ rw (e, t, parse_options) (r _ (take_directory-IsAccepted value o v))
        | inr t ↦ rw (e, t, parse_options) ((λ h. cc h), λ h. inr (inr (inl refl)))
      ]
  option-IsParsed argument value arguments o text v d r unknown e =
      rw (e, parse_options) ((λ h. cc h), λ h. inr (inr (inr (argument, refl))))

  -- ParseOptions starts from options that are accepted. When it returns success, the options that
  -- it has written are accepted too. When it returns an error, nothing is said of the options, and
  -- the text is that the magnitude is bad, that the duration is, that the directory is, or that an
  -- option is unknown: none of them says that a value is missing.
  pub parse_options-IsParsed :
      (arguments : List String) (o : Options F) (text : String)
      → IsAccepted o
      → IsParsed (parse_options F N arguments o text)
  unfolding parse_options
  parse_options-IsParsed [] o text v = ((λ h. v), λ h. cc h)
  parse_options-IsParsed (argument ∷ []) o text v = go (request_of argument) refl
    where
      go :
          (k : Request)
          → request_of argument ≡ k
          → IsParsed (parse_options F N (argument ∷ []) o text)
      go ask_help e = rw (e, parse_options) ((λ h. cc h), λ h. cc h)
      go ask_debug e = rw (e, parse_options) ((λ h. debugged-IsAccepted o v), λ h. cc h)
      go ask_magnitude e = rw (e, parse_options) ((λ h. cc h), λ h. inl refl)
      go ask_duration e = rw (e, parse_options) ((λ h. cc h), λ h. inr (inl refl))
      go ask_directory e = rw (e, parse_options) ((λ h. cc h), λ h. inr (inr (inl refl)))
      go unknown e = rw (e, parse_options) ((λ h. cc h), λ h. inr (inr (inr (argument, refl))))
  parse_options-IsParsed (argument ∷ value ∷ arguments) o text v =
      option-IsParsed argument value arguments o text v
        (λ o' w. parse_options-IsParsed (value ∷ arguments) o' text w)
        (λ o' w. parse_options-IsParsed arguments o' text w) (request_of argument) refl

  -- After a success of ParseOptions from accepted options, with a configuration that
  -- LoadHardwareConfig returned, the constructor of TouchFFManager does not throw.
  pub parse_options_starts :
      (arguments : List String) (o : Options F) (text : String) (path : String)
      (row : Result (Option (HardwareConfig F))) (config : HardwareConfig F) (os : Os)
      (trace : List Syscall)
      → IsAccepted o
      → (parse_options F N arguments o text).0 ≡ success
      → load_hardware_config F path row ≡ ok config
      → (r : TouchFfManager × List Syscall) × (make_manager F os config.res_x config.res_y
            config.rotation
            (parse_options F N arguments o text).1.haptic_magnitude
            (parse_options F N arguments o text).1.haptic_duration_ms
            trace
          ≡ ok r)
  parse_options_starts arguments o text path row config os trace v s l =
      let a = (parse_options-IsParsed arguments o text v).0 s in
      make_manager_loaded F path row config os _ _ trace l a.finite a.not_negative a.not_large
        a.some_time a.short_time

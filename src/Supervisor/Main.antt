-- ===== src/Supervisor/Main.antt =====
-- main: the command line, the hardware configuration and the supervision of the workers.
use Prim.Native.String.{String}
use halo_keyboard.Prelude.{
  ℕ, suc, pos, ◌≡◌, refl, Bool, true, false, List, [], ◌∷◌, Option, some, All, ◌⊎◌, inl, inr,
  if◌then◌else◌,
}
use halo_keyboard.System.{Os, Syscall, Result, ok, err}
use halo_keyboard.Floating.{Floating, Arithmetic}
use halo_keyboard.Hardware.{HardwareConfig, load_hardware_config}
use halo_keyboard.Haptics.Manager.{TouchFfManager}
use halo_keyboard.Haptics.Upload.{make_manager}
use halo_keyboard.Options.{
  Numbers, Options, ParseResult, success, help, error, same_text, parse_options,
}
use halo_keyboard.Options.Parsing.{IsAccepted, parse_options_starts}
use halo_keyboard.Supervisor.Processes.{Call, Kernel, exit_success, exit_failure}
use halo_keyboard.Supervisor.Workers.{main_program, give_up, stop_both, stop_worker}
use halo_keyboard.Supervisor.Waiting.{IsPatient, IsSettled, workers, was_clean}
use halo_keyboard.Supervisor.Reaping.{main_program_reaps}

-- Whether LoadHardwareConfig has returned.
abbrev pub is_ok : {A : Type 0} → Result A → Bool
is_ok (ok a) = true
is_ok (err failure) = false

-- `join` is the operator `/` of std::filesystem::path, `default_directory` is
-- HALO_KEYBOARD_DEFAULT_CONFIG_DIRECTORY, and `rows` is what the CSV reader gives for a path.
module _ (F : Floating) (A : Arithmetic F) (N : Numbers F) (default_directory : String)
    (join : String → String → String) (rows : String → Result (Option (HardwareConfig F))) where
  -- The defaults of struct Options.
  abbrev pub defaults : Options F
  defaults = record {
    debug_level = 0;
    haptic_magnitude = A.of_int (pos 1);
    haptic_duration_ms = pos 12;
    config_directory = "";
  }

  abbrev pub config_directory_of : Options F → String
  config_directory_of options =
      if same_text options.config_directory "" then default_directory else options.config_directory

  abbrev pub hardware_of : Options F → Result (HardwareConfig F)
  hardware_of options =
      let path = join (config_directory_of options) "hardware.csv" in
      load_hardware_config F path (rows path)

  -- The exit status and the calls of the parent process.
  unfoldable pub main : ℕ → Kernel → List String → Option (ℕ × List Call)
  main fuel kernel arguments =
      let parsed = parse_options F N arguments defaults "" in
      elim parsed.0 [
        | help ↦ some (exit_success, [])
        | error ↦ some (exit_failure, [])
        | success ↦ main_program fuel kernel (is_ok (hardware_of parsed.1))
      ]

  -- A worker was forked, or a fork has failed.
  abbrev pub has_forked : Kernel → List Call → Bool
  has_forked kernel trace = elim (workers kernel trace) [ [] ↦ false | pid ∷ pids ↦ true ]

  -- The options are parsed, the configuration is loaded, and with them TouchFFManager is
  -- constructed on any system.
  abbrev pub CanStart : List String → Type 0
  CanStart arguments =
      let parsed = parse_options F N arguments defaults "" in
      (parsed.0 ≡ success)
      × (config : HardwareConfig F) × (hardware_of parsed.1 ≡ ok config)
      × ((os : Os) (trace : List Syscall)
          → (r : TouchFfManager × List Syscall) × (make_manager F os config.res_x config.res_y
                config.rotation parsed.1.haptic_magnitude parsed.1.haptic_duration_ms trace
              ≡ ok r))

  abbrev pub MainEnds : Kernel → List String → ℕ × List Call → Type 0
  MainEnds kernel arguments r =
      All (IsSettled kernel r.1) (workers kernel r.1)
      × (r.0 ≡ exit_success
          → ((parse_options F N arguments defaults "").0 ≡ help) ⊎ (was_clean kernel r.1 ≡ true))
      × (has_forked kernel r.1 ≡ true → CanStart arguments)

  not_loaded :
      (fuel : ℕ) (kernel : Kernel) → main_program fuel kernel false ≡ some (exit_failure, [])
  unfolding main_program give_up stop_both stop_worker
  not_loaded fuel kernel = refl

  -- If no call of the process is interrupted more than `n` times in a row and the default options
  -- are accepted, then main ends, with `n + 1` as fuel for each loop, and: every worker that was
  -- forked is reaped; the exit status is that of success only if the help was asked for or a worker
  -- exited with success; and a worker is forked only if the options were parsed, the hardware
  -- configuration was loaded, and the TouchFFManager of the keyboard worker can be constructed from
  -- them on any system.
  pub main_reaps :
      (n : ℕ) (kernel : Kernel) (arguments : List String)
      → IsPatient n kernel
      → IsAccepted F N defaults
      → (r : ℕ × List Call) × (main (suc n) kernel arguments ≡ some r) × MainEnds kernel arguments r
  unfolding main
  main_reaps n kernel arguments p v =
      let parsed = parse_options F N arguments defaults "" in
      go parsed.0 refl (hardware_of parsed.1) refl
    where
      go :
          (result : ParseResult)
          → (parse_options F N arguments defaults "").0 ≡ result
          → (loaded : Result (HardwareConfig F))
          → hardware_of (parse_options F N arguments defaults "").1 ≡ loaded
          → (r : ℕ × List Call) × (main (suc n) kernel arguments ≡ some r)
            × MainEnds kernel arguments r
      go help e loaded l =
          ((exit_success, []), rw (e, main) refl, (tt, (λ c. inl e), λ f. absurd (cc f)))
      go error e loaded l =
          ((exit_failure, []), rw (e, main) refl, (tt, (λ c. absurd (cc c)), λ f. absurd (cc f)))
      go success e (err failure) l = (
        (exit_failure, []),
        rw (e, l, main) (not_loaded (suc n) kernel),
        (tt, (λ c. absurd (cc c)), λ f. absurd (cc f)),
      )
      go success e (ok config) l =
          let (code, trace, m, s, c) = main_program_reaps kernel n p true in
          (
            (code, trace),
            rw (e, l, main) m,
            (
              s,
              (λ x. inr (c x)),
              λ f. (
                e,
                config,
                l,
                λ os t.
                    let path =
                      join (config_directory_of (parse_options F N arguments defaults "").1)
                        "hardware.csv" in
                    parse_options_starts F N arguments defaults "" path (rows path) config os t v e
                      l,
              ),
            ),
          )

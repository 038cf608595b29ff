-- ===== src/Supervisor/Examples.antt =====
-- Evaluations of the supervisor on a small kernel, and instances of its theorems.
use halo_keyboard.Prelude.{
  ℕ, ℤ, pos, negsuc, ◌≡◌, refl, true, List, [], ◌∷◌, some, All, Option, arith,
}
use Prim.Native.String.{String}
use halo_keyboard.System.{Result, ok}
use halo_keyboard.Floating.Whole.{whole, on_whole}
use halo_keyboard.Hardware.{HardwareConfig, load_hardware_config, validate}
use halo_keyboard.Options.{
  Numbers, parse_options, request_of, take_magnitude, take_duration, take_directory,
}
use halo_keyboard.Options.Parsing.{IsAccepted}
use halo_keyboard.Supervisor.Main.{defaults, main, main_reaps, MainEnds}
use halo_keyboard.Supervisor.Processes.{
  Call, fork, wait_any, wait_for, terminate, Reply, exited, Kernel, exit_success,
}
use halo_keyboard.Supervisor.Workers.{
  main_program, supervise, stop_worker, wait_for_worker, repeat_call,
}
use halo_keyboard.Supervisor.Signals.{Aims}
use halo_keyboard.Supervisor.Killing.{main_program-Aims}
use halo_keyboard.Supervisor.Waiting.{IsPatient, IsSettled, workers, was_clean}
use halo_keyboard.Supervisor.Reaping.{main_program_reaps}

abbrev reply : ℤ → Reply
reply n = record { ret = n; errno = 4; status = exited 0 }

-- The keyboard has the process 100, the touchpad 101. Each wait is interrupted once; then the
-- touchpad has exited with success.
abbrev kernel : Kernel
kernel [] call = reply (pos 100)
kernel (wait_any ∷ trace) call = reply (pos 101)
kernel (wait_for pid ∷ trace) call = reply (pos 100)
kernel (fork name ∷ trace) (fork name') = reply (pos 101)
kernel (fork name ∷ trace) (terminate pid) = reply (pos 0)
kernel (fork name ∷ trace) (wait_for pid) = reply (negsuc 0)
kernel (fork name ∷ trace) wait_any = reply (negsuc 0)
kernel (terminate pid ∷ trace) (fork name) = reply (pos 101)
kernel (terminate pid ∷ trace) (terminate pid') = reply (pos 0)
kernel (terminate pid ∷ trace) (wait_for pid') = reply (negsuc 0)
kernel (terminate pid ∷ trace) wait_any = reply (negsuc 0)

-- The supervisor stops the keyboard when the touchpad has exited.
touchpad_exited :
    main_program 2 kernel true
    ≡ some (
      exit_success,
      wait_for (pos 100)
          ∷ wait_for (pos 100)
          ∷ terminate (pos 100)
          ∷ wait_any
          ∷ wait_any
          ∷ fork "touchpad"
          ∷ fork "keyboard"
          ∷ [],
    )
unfolding main_program supervise stop_worker wait_for_worker repeat_call
touchpad_exited = refl

main_program-Aims_example : Aims kernel (
    wait_for (pos 100)
    ∷ wait_for (pos 100)
    ∷ terminate (pos 100)
    ∷ wait_any
    ∷ wait_any
    ∷ fork "touchpad"
    ∷ fork "keyboard"
    ∷ [])
main_program-Aims_example =
    main_program-Aims kernel 2 true (exit_success, _) (λ l. refl) touchpad_exited

kernel-IsPatient : IsPatient 1 kernel
kernel-IsPatient call [] = refl
kernel-IsPatient call (wait_any ∷ trace) = refl
kernel-IsPatient call (wait_for pid ∷ trace) = refl
kernel-IsPatient (fork name) (fork name' ∷ trace) = refl
kernel-IsPatient wait_any (fork name' ∷ trace) = refl
kernel-IsPatient (wait_for pid) (fork name' ∷ trace) = refl
kernel-IsPatient (terminate pid) (fork name' ∷ trace) = refl
kernel-IsPatient (fork name) (terminate pid' ∷ trace) = refl
kernel-IsPatient wait_any (terminate pid' ∷ trace) = refl
kernel-IsPatient (wait_for pid) (terminate pid' ∷ trace) = refl
kernel-IsPatient (terminate pid) (terminate pid' ∷ trace) = refl

main_program_reaps_example :
    (code : ℕ) × (trace : List Call) × (main_program 2 kernel true ≡ some (code, trace))
    × All (IsSettled kernel trace) (workers kernel trace)
    × (code ≡ exit_success → was_clean kernel trace ≡ true)
main_program_reaps_example = main_program_reaps kernel 1 kernel-IsPatient true

-- Every text is the number 1 or 20.
abbrev numbers : Numbers whole
numbers = record { parse_double = λ text x. (pos 1, true); parse_int = λ text n. (pos 20, true) }

abbrev config : HardwareConfig whole
config = record {
  rotation = pos 270;
  res_x = pos 1080;
  res_y = pos 1920;
  width_mm = pos 120;
  height_mm = pos 215;
  left_margin_mm = pos 0;
  top_margin_mm = pos 3;
}

-- The path of a file in a directory is the name of the file.
abbrev join : String → String → String
join directory name = name

abbrev rows : String → Result (Option (HardwareConfig whole))
rows path = ok (some config)

abbrev arguments : List String
arguments = "-m" ∷ "1.0" ∷ "-D" ∷ "20" ∷ []

-- The arguments are accepted, and the workers run until the touchpad has exited.
main_runs :
    main whole on_whole numbers "/usr/share" join rows 2 kernel arguments
    ≡ main_program 2 kernel true
unfolding main parse_options request_of take_magnitude take_duration take_directory
    load_hardware_config validate
main_runs = refl

defaults-IsAccepted :
    IsAccepted whole numbers (defaults whole on_whole numbers "/usr/share" join rows)
defaults-IsAccepted = record {
  finite = refl;
  not_negative = refl;
  not_large = refl;
  some_time = omega arith;
  short_time = omega arith;
}

main_reaps_example :
    (r : ℕ × List Call) × (main whole on_whole numbers "/usr/share" join rows 2 kernel arguments
      ≡ some r)
    × MainEnds whole on_whole numbers "/usr/share" join rows kernel arguments r
main_reaps_example =
    main_reaps whole on_whole numbers "/usr/share" join rows 1 kernel arguments kernel-IsPatient
      defaults-IsAccepted

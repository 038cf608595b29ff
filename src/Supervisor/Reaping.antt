-- ===== src/Supervisor/Reaping.antt =====
-- Supervise and main end with every worker reaped.
use halo_keyboard.Prelude.{
  ℕ, suc, ℤ, pos, negsuc, ◌≡◌, refl, Bool, true, false, List, [], ◌∷◌, Option, some, Bool-cases,
  inl, inr, ap, ◌∙◌, arith, All, ltb_ℤ, ◌==ℤ◌, if◌then◌else◌,
}
use halo_keyboard.Supervisor.Processes.{Call, fork, wait_any, Kernel, exit_success, exit_failure}
use halo_keyboard.Supervisor.Workers.{
  repeat_call, wait_for_worker, stop_worker, stop_both, is_expected_stop, supervise, give_up,
  main_program,
}
use halo_keyboard.Supervisor.Waiting.{
  IsPatient, IsSettled, workers, was_clean, Extends, repeat_call-Waited, stop_worker-Settling,
  stop_both-Settling,
}

module _ (kernel : Kernel) (n : ℕ) (h : IsPatient n kernel) where
  abbrev Ended : List Call → ℕ × List Call → ℤ → ℤ → Type 0
  Ended trace r p q =
      (workers kernel r.1 ≡ workers kernel trace)
      × IsSettled kernel r.1 p
      × IsSettled kernel r.1 q
      × (r.0 ≡ exit_success → was_clean kernel r.1 ≡ true)

  give_up-Ended :
      (p q : ℤ) (trace : List Call)
      → (r : ℕ × List Call) × (give_up (suc n) kernel p q trace ≡ some r) × Ended trace r p q
  unfolding give_up
  give_up-Ended p q trace =
      let (u, f, y, s1, s2) = stop_both-Settling kernel n h p q trace in
      ((exit_failure, u), rw f refl, (y.0, s1, s2, λ c. absurd (omega arith)))

  -- After a worker was reaped: the others are stopped, as the code tells by the exited process.
  module _ (p q : ℤ) (t : List Call) (l : ltb_ℤ (kernel t wait_any).ret (pos 0) ≡ false) where
    abbrev waited : List Call
    waited = wait_any ∷ t

    abbrev reaction : Option (List Call)
    reaction =
        if (kernel t wait_any).ret ==ℤ p
        then stop_worker (suc n) kernel q waited
        else if (kernel t wait_any).ret ==ℤ q
        then stop_worker (suc n) kernel p waited
        else stop_both (suc n) kernel p q waited

    reaction-Settling :
        (u : List Call) × (reaction ≡ some u)
        × Extends kernel waited u
        × IsSettled kernel u p
        × IsSettled kernel u q
    reaction-Settling = elim (Bool-cases ((kernel t wait_any).ret ==ℤ p)) [
      | inl k ↦
          (let (u, f, y, s) = stop_worker-Settling kernel n h q waited in
            (u, rw (k, f) refl, y, ground (arith, y.1 p, k), s))
      | inr k ↦ elim (Bool-cases ((kernel t wait_any).ret ==ℤ q)) [
        | inl k' ↦
            (let (u, f, y, s) = stop_worker-Settling kernel n h p waited in
              (u, rw (k, k', f) refl, y, s, ground (arith, y.1 q, k')))
        | inr k' ↦
            (let (u, f, y, s1, s2) = stop_both-Settling kernel n h p q waited in
              (u, rw (k, k', f) refl, y, s1, s2))
      ]
    ]

  supervise-Ended :
      (p q : ℤ) (trace : List Call)
      → (r : ℕ × List Call) × (supervise (suc n) kernel p q trace ≡ some r) × Ended trace r p q
  unfolding supervise wait_for_worker
  supervise-Ended p q trace =
      let (r, e, (t, w, z, x)) = repeat_call-Waited kernel n wait_any trace refl (h _ _) in
      let e' : repeat_call (suc n) kernel wait_any trace ≡ some (kernel t wait_any, wait_any ∷ t) =
        e ∙ ap some w in
      elim (Bool-cases (ltb_ℤ (kernel t wait_any).ret (pos 0))) [
        | inl l ↦
            (let (u, f, y, s1, s2) = stop_both-Settling kernel n h p q (wait_any ∷ t) in
              (
                (exit_failure, u),
                rw (e', l, f, supervise, wait_for_worker) refl,
                (y.0 ∙ x.0, s1, s2, λ c. absurd (omega arith)),
              ))
        | inr l ↦
            (let (u, f, y, s1, s2) = reaction-Settling p q t l in
              (
                (
                  if is_expected_stop (kernel t wait_any).status
                      then exit_success
                      else exit_failure,
                  u,
                ),
                rw (e', l, f, supervise, wait_for_worker) refl,
                (y.0 ∙ x.0, s1, s2, λ c. y.2 (ground (arith, c, l))),
              ))
      ]

  -- The parent process ends if no call is interrupted more than `n` times in a row, with `n + 1` as
  -- fuel for each loop. Every worker that was forked is reaped by then, and the exit status is that
  -- of success only if a worker exited with success.
  pub main_program_reaps :
      (loaded : Bool)
      → (code : ℕ) × (trace : List Call) × (main_program (suc n) kernel loaded ≡ some (code, trace))
        × All (IsSettled kernel trace) (workers kernel trace)
        × (code ≡ exit_success → was_clean kernel trace ≡ true)
  unfolding main_program
  main_program_reaps false =
      let (r, e, x) = give_up-Ended (negsuc 0) (negsuc 0) [] in (r.0, r.1, e, rw x.0 tt, x.3)
  main_program_reaps true =
      let keyboard = fork "keyboard" in
      let touchpad = fork "touchpad" in
      let p = (kernel [] keyboard).ret in
      let q = (kernel (keyboard ∷ []) touchpad).ret in
      elim (Bool-cases (ltb_ℤ p (pos 0))) [
        | inl l ↦
            (let (r, e, x) = give_up-Ended (negsuc 0) (negsuc 0) (keyboard ∷ []) in
              (r.0, r.1, rw l e, rw x.0 (ground (arith, l), tt), x.3))
        | inr l ↦ elim (Bool-cases (ltb_ℤ q (pos 0))) [
          | inl k ↦
              (let (r, e, x) = give_up-Ended p (negsuc 0) (touchpad ∷ keyboard ∷ []) in
                (r.0, r.1, rw (l, k) e, rw x.0 (ground (arith, k), (x.1, tt)), x.3))
          | inr k ↦
              (let (r, e, x) = supervise-Ended p q (touchpad ∷ keyboard ∷ []) in
                (r.0, r.1, rw (l, k) e, rw x.0 (x.2, (x.1, tt)), x.3))
        ]
      ]

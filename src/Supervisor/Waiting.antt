-- ===== src/Supervisor/Waiting.antt =====
-- Waiting for processes and stopping them: WaitForWorker and StopWorker.
use halo_keyboard.Prelude.{
  ℕ, zero, suc, ℤ, pos, ◌≡◌, refl, Bool, true, false, not, ◌&&◌, ◌||◌, List, [], ◌∷◌, Option, some,
  Bool-cases, inl, inr, ◌∙◌, arith, leb_ℤ, ◌==ℤ◌, ==ℤ_iff,
}
use halo_keyboard.Supervisor.Processes.{Call, fork, wait_any, wait_for, terminate, Reply, Kernel}
use halo_keyboard.Supervisor.Workers.{
  is_interrupted, repeat_call, stop_worker, stop_both, is_expected_stop,
}

-- The call is answered after at most `n` interruptions.
abbrev pub answers : ℕ → Kernel → Call → List Call → Bool
answers zero kernel call trace = not (is_interrupted (kernel trace call))
answers (suc n) kernel call trace =
    not (is_interrupted (kernel trace call)) || answers n kernel call (call ∷ trace)

-- No call is interrupted more than `n` times in a row.
abbrev pub IsPatient : ℕ → Kernel → Type 0
IsPatient n kernel = (call : Call) (trace : List Call) → answers n kernel call trace ≡ true

module _ (kernel : Kernel) where
  -- Waiting for the process has returned it, or an error other than an interruption.
  abbrev pub reaped : ℤ → List Call → Bool
  reaped pid [] = false
  reaped pid (fork name ∷ trace) = reaped pid trace
  reaped pid (wait_any ∷ trace) = (kernel trace wait_any).ret ==ℤ pid || reaped pid trace
  reaped pid (wait_for p ∷ trace) =
      (p ==ℤ pid && not (is_interrupted (kernel trace (wait_for p)))) || reaped pid trace
  reaped pid (terminate p ∷ trace) = reaped pid trace

  -- The processes that were forked, with what failed forks returned.
  abbrev pub workers : List Call → List ℤ
  workers [] = []
  workers (fork name ∷ trace) = (kernel trace (fork name)).ret ∷ workers trace
  workers (wait_any ∷ trace) = workers trace
  workers (wait_for p ∷ trace) = workers trace
  workers (terminate p ∷ trace) = workers trace

  -- Some worker exited with success.
  abbrev pub was_clean : List Call → Bool
  was_clean [] = false
  was_clean (fork name ∷ trace) = was_clean trace
  was_clean (wait_any ∷ trace) =
      (leb_ℤ (pos 0) (kernel trace wait_any).ret && is_expected_stop (kernel trace wait_any).status)
      || was_clean trace
  was_clean (wait_for p ∷ trace) = was_clean trace
  was_clean (terminate p ∷ trace) = was_clean trace

  abbrev pub IsSettled : List Call → ℤ → Type 0
  IsSettled trace pid = (leb_ℤ pid (pos 0) || reaped pid trace) ≡ true

  -- What later calls keep: nothing more is forked, and what was reaped stays so.
  abbrev pub Extends : List Call → List Call → Type 0
  Extends trace trace' =
      (workers trace' ≡ workers trace)
      × ((pid : ℤ) → reaped pid trace ≡ true → reaped pid trace' ≡ true)
      × (was_clean trace ≡ true → was_clean trace' ≡ true)

  abbrev pub Waited : Call → List Call → Reply × List Call → Type 0
  Waited call trace r =
      (t : List Call) × (r ≡ (kernel t call, call ∷ t))
      × (is_interrupted (kernel t call) ≡ false)
      × Extends trace t

  abbrev pub is_fork : Call → Bool
  is_fork (fork name) = true
  is_fork wait_any = false
  is_fork (wait_for p) = false
  is_fork (terminate p) = false

  pub cons-Extends :
      (call : Call) (trace : List Call) → is_fork call ≡ false → Extends trace (call ∷ trace)
  cons-Extends call trace f = ground arith

  pub Extends-trans : (s t u : List Call) → Extends s t → Extends t u → Extends s u
  Extends-trans s t u (a, b, c) (d, e, f) = (d ∙ a, (λ pid h. e pid (b pid h)), λ h. f (c h))

  -- With `n` interruptions at most, `n + 1` calls are enough.
  pub repeat_call-Waited :
      (n : ℕ) (call : Call) (trace : List Call)
      → is_fork call ≡ false
      → answers n kernel call trace ≡ true
      → (r : Reply × List Call) × (repeat_call (suc n) kernel call trace ≡ some r)
        × Waited call trace r
  unfolding repeat_call
  repeat_call-Waited zero call trace f a =
      let i : is_interrupted (kernel trace call) ≡ false = ground arith in
      ((kernel trace call, call ∷ trace), rw i refl, (trace, refl, i, (refl, (λ pid h. h), λ h. h)))
  repeat_call-Waited (suc n) call trace f a =
      elim (Bool-cases (is_interrupted (kernel trace call))) [
        | inr i ↦ (
          (kernel trace call, call ∷ trace),
          rw i refl,
          (trace, refl, i, (refl, (λ pid h. h), λ h. h)),
        )
        | inl i ↦
            (let (r, e, (t, q, z, x)) =
                repeat_call-Waited n call (call ∷ trace) f (ground (arith, i, a)) in
              (
                r,
                rw i e,
                (t, q, z, Extends-trans trace (call ∷ trace) t (cons-Extends call trace f) x),
              ))
      ]

  abbrev pub Settling : List Call → Option (List Call) → ℤ → Type 0
  Settling trace o pid =
      (trace' : List Call) × (o ≡ some trace') × Extends trace trace' × IsSettled trace' pid

  module _ (n : ℕ) (h : IsPatient n kernel) where
    pub stop_worker-Settling :
        (pid : ℤ) (trace : List Call) → Settling trace (stop_worker (suc n) kernel pid trace) pid
    unfolding stop_worker
    stop_worker-Settling pid trace = elim (Bool-cases (leb_ℤ pid (pos 0))) [
      | inl l ↦ (trace, rw l refl, (refl, (λ p k. k), λ k. k), rw l refl)
      | inr l ↦
          (let (r, e, (t, q, z, x)) =
              repeat_call-Waited n (wait_for pid) (terminate pid ∷ trace) refl (h _ _) in
            (
              r.1,
              rw (l, e) refl,
              rw q (
                  Extends-trans trace t (wait_for pid ∷ t)
                    (Extends-trans trace (terminate pid ∷ trace) t
                      (cons-Extends (terminate pid) trace refl) x)
                    (cons-Extends (wait_for pid) t refl)),
              rw q (ground (arith, z, ==ℤ_iff pid pid)),
            ))
    ]

    pub stop_both-Settling :
        (p q : ℤ) (trace : List Call)
        → (trace' : List Call) × (stop_both (suc n) kernel p q trace ≡ some trace')
          × Extends trace trace'
          × IsSettled trace' p
          × IsSettled trace' q
    unfolding stop_both
    stop_both-Settling p q trace =
        let (t, e, x, s) = stop_worker-Settling p trace in
        let (u, f, y, w) = stop_worker-Settling q t in
        (u, rw (e, f) refl, Extends-trans trace t u x y, ground (arith, s, y.1 p), w)

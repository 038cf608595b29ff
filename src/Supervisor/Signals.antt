-- ===== src/Supervisor/Signals.antt =====
-- Which processes StopWorker sends SIGTERM to, and what the waits change.
use mathlib.Core.Path.{subst}
use halo_keyboard.Prelude.{
  ℕ, zero, suc, ℤ, pos, negsuc, ◌≡◌, refl, ap, ◌∙◌, Bool, true, false, ◌||◌, List, [], ◌∷◌, Option,
  none, some, Bool-cases, inl, inr, arith, leb_ℤ, ◌==ℤ◌,
}
use halo_keyboard.Supervisor.Processes.{Call, fork, wait_any, wait_for, terminate, Reply, Kernel}
use halo_keyboard.Supervisor.Workers.{is_interrupted, repeat_call, stop_worker, stop_both, give_up}
use halo_keyboard.Supervisor.Waiting.{reaped, workers}

abbrev pub is_in : ℤ → List ℤ → Bool
is_in n [] = false
is_in n (k ∷ ks) = k ==ℤ n || is_in n ks

module _ (kernel : Kernel) where
  -- A process that was forked and not reaped.
  abbrev pub IsRunning : ℤ → List Call → Type 0
  IsRunning pid t = (is_in pid (workers kernel t) ≡ true) × (reaped kernel pid t ≡ false)

  -- Every SIGTERM went to a process that was running.
  abbrev pub Aims : List Call → Type 0
  Aims [] = Unit
  Aims (fork name ∷ t) = Aims t
  Aims (wait_any ∷ t) = Aims t
  Aims (wait_for pid ∷ t) = Aims t
  Aims (terminate pid ∷ t) = IsRunning pid t × Aims t

  pub data Repeated (call : Call) : List Call → Reply × List Call → Type 0 where
    last :
        {t : List Call}
        → is_interrupted (kernel t call) ≡ false
        → Repeated call t (kernel t call, call ∷ t)
    once_more :
        {t : List Call} {r : Reply × List Call}
        → is_interrupted (kernel t call) ≡ true
        → Repeated call (call ∷ t) r
        → Repeated call t r

  pub repeat_call-Repeated :
      (fuel : ℕ) (call : Call) (t : List Call) (r : Reply × List Call)
      → repeat_call fuel kernel call t ≡ some r
      → Repeated call t r
  unfolding repeat_call
  repeat_call-Repeated zero call t r e = absurd (cc e)
  repeat_call-Repeated (suc fuel) call t r e = elim (Bool-cases (is_interrupted (kernel t call))) [
    | inl i ↦ once_more i (repeat_call-Repeated fuel call (call ∷ t) r (ground (arith, e, i)))
    | inr i ↦ (let q : r ≡ (kernel t call, call ∷ t) = ground (arith, e, i) in rw q (last i))
  ]

  -- What a wait leaves as it was, for a process that it does not return.
  abbrev Leaves : List Call → List Call → ℤ → Type 0
  Leaves t t' pid =
      (Aims t → Aims t')
      × (workers kernel t' ≡ workers kernel t)
      × (reaped kernel pid t' ≡ reaped kernel pid t)

  wait_any-Leaves :
      {t : List Call} {r : Reply × List Call}
      → (pid : ℤ) → leb_ℤ pid (pos 0) ≡ false
      → Repeated wait_any t r
      → (r.0.ret ==ℤ pid) ≡ false
      → Leaves t r.1 pid
  wait_any-Leaves pid l (last i) n = ((λ a. a), refl, ground (arith, n))
  wait_any-Leaves {t} pid l (once_more i r) n =
      let (a, w, p) = wait_any-Leaves pid l r n in (a, w, ground (arith, p, i, l))

  wait_for-Leaves :
      {p : ℤ} {t : List Call} {r : Reply × List Call}
      → (pid : ℤ) → (p ==ℤ pid) ≡ false
      → Repeated (wait_for p) t r
      → Leaves t r.1 pid
  wait_for-Leaves pid l (last i) = ((λ a. a), refl, ground (arith, l))
  wait_for-Leaves pid l (once_more i r) =
      let (a, w, p) = wait_for-Leaves pid l r in (a, w, ground (arith, p, l))

  wait_for-Aims :
      {p : ℤ} {t : List Call} {r : Reply × List Call}
      → Repeated (wait_for p) t r
      → Aims t
      → Aims r.1
  wait_for-Aims (last i) a = a
  wait_for-Aims (once_more i r) a = wait_for-Aims r a

  -- A process that is to be stopped is running, if there is one.
  abbrev pub Targets : ℤ → List Call → Type 0
  Targets pid t = leb_ℤ pid (pos 0) ≡ false → IsRunning pid t

  some-injective : {A : Type 0} → (a b : A) → some a ≡ some b → a ≡ b
  some-injective a b e = cc

  -- Another process is left alone.
  pub stop_worker-Leaves :
      (fuel : ℕ) (pid other : ℤ) (t t' : List Call)
      → stop_worker fuel kernel pid t ≡ some t'
      → Targets pid t
      → (leb_ℤ other (pos 0) ≡ false → (pid ==ℤ other) ≡ false)
      → (Aims t → Aims t') × (Targets other t → Targets other t')
  unfolding stop_worker
  stop_worker-Leaves fuel pid other t t' e g n = elim (Bool-cases (leb_ℤ pid (pos 0))) [
    | inl l ↦
        (let q : t ≡ t' = ground (arith, e, l) in
          subst (λ u. (Aims t → Aims u) × (Targets other t → Targets other u)) q ((λ a. a), λ h. h))
    | inr l ↦ waited l (repeat_call fuel kernel (wait_for pid) (terminate pid ∷ t)) refl
  ]
    where
      waited :
          leb_ℤ pid (pos 0) ≡ false
          → (o : Option (Reply × List Call))
          → repeat_call fuel kernel (wait_for pid) (terminate pid ∷ t) ≡ o
          → (Aims t → Aims t') × (Targets other t → Targets other t')
      waited l none f = absurd (ground (arith, e, l, f))
      waited l (some r) f =
          let rep = repeat_call-Repeated fuel (wait_for pid) (terminate pid ∷ t) r f in
          let q : r.1 ≡ t' = ground (arith, e, l, f) in
          subst (λ u. (Aims t → Aims u) × (Targets other t → Targets other u)) q
            (
              (λ a. wait_for-Aims rep (g l, a)),
              λ h m.
                  let (a, w, p) = wait_for-Leaves other (n m) rep in
                  let (i, z) = h m in (ap (is_in other) w ∙ i, p ∙ z),
            )

  pub stop_both-Aims :
      (fuel : ℕ) (p q : ℤ) (t t' : List Call)
      → stop_both fuel kernel p q t ≡ some t'
      → Targets p t
      → Targets q t
      → (leb_ℤ q (pos 0) ≡ false → (p ==ℤ q) ≡ false)
      → Aims t
      → Aims t'
  unfolding stop_both
  stop_both-Aims fuel p q t t' e g h n a = go (stop_worker fuel kernel p t) refl
    where
      go : (o : Option (List Call)) → stop_worker fuel kernel p t ≡ o → Aims t'
      go none f = absurd (ground (arith, e, f))
      go (some u) f =
          let (aims, targets) = stop_worker-Leaves fuel p q t u f g n in
          let e' : stop_worker fuel kernel q u ≡ some t' = ground (arith, e, f) in
          (stop_worker-Leaves fuel q (negsuc 0) u t' e' (targets h) (λ l. absurd (cc l))).0 (aims a)

  pub give_up-Aims :
      (fuel : ℕ) (p q : ℤ) (t : List Call) (r : ℕ × List Call)
      → give_up fuel kernel p q t ≡ some r
      → Targets p t
      → Targets q t
      → (leb_ℤ q (pos 0) ≡ false → (p ==ℤ q) ≡ false)
      → Aims t
      → Aims r.1
  unfolding give_up
  give_up-Aims fuel p q t r e g h n a = go (stop_both fuel kernel p q t) refl
    where
      go : (o : Option (List Call)) → stop_both fuel kernel p q t ≡ o → Aims r.1
      go none f = absurd (ground (arith, e, f))
      go (some u) f =
          let same : u ≡ r.1 = ground (arith, e, f) in
          subst Aims same (stop_both-Aims fuel p q t u f g h n a)

  pub wait_any-Aims :
      {t : List Call} {r : Reply × List Call} → Repeated wait_any t r → Aims t → Aims r.1
  wait_any-Aims (last i) a = a
  wait_any-Aims (once_more i r) a = wait_any-Aims r a

  pub wait_any-Targets :
      {t : List Call} {r : Reply × List Call}
      → (pid : ℤ) → Repeated wait_any t r
      → (leb_ℤ pid (pos 0) ≡ false → (r.0.ret ==ℤ pid) ≡ false)
      → Targets pid t
      → Targets pid r.1
  wait_any-Targets pid rep n h l =
      let (a, w, p) = wait_any-Leaves pid l rep (n l) in
      let (i, z) = h l in (ap (is_in pid) w ∙ i, p ∙ z)

-- ===== src/Supervisor/Killing.antt =====
-- Which processes main sends SIGTERM to.
use halo_keyboard.Prelude.{
  ℕ, ℤ, pos, negsuc, ◌≡◌, refl, Bool, true, false, List, [], ◌∷◌, Option, none, some, Bool-cases,
  inl, inr, arith, leb_ℤ, ltb_ℤ, ◌==ℤ◌, if◌then◌else◌,
}
use halo_keyboard.Supervisor.Processes.{
  Call, fork, wait_any, Reply, Kernel, exit_success, exit_failure,
}
use halo_keyboard.Supervisor.Workers.{
  repeat_call, and_then, wait_for_worker, stop_worker, stop_both, is_expected_stop, supervise,
  main_program,
}
use halo_keyboard.Supervisor.Signals.{
  is_in, Aims, Targets, repeat_call-Repeated, wait_any-Aims, wait_any-Targets, stop_worker-Leaves,
  stop_both-Aims, give_up-Aims,
}

module _ (kernel : Kernel) where
  and_then-some :
      (o : Option (List Call)) (code : ℕ) (r : ℕ × List Call)
      → and_then o (λ u. some (code, u)) ≡ some r
      → o ≡ some r.1
  and_then-some none code r e = absurd (cc e)
  and_then-some (some u) code r e = cc

  -- What Supervise does after its wait.
  react-Aims :
      (fuel : ℕ) (p q : ℤ) (reply : Reply) (t t' : List Call)
      → (if reply.ret ==ℤ p
          then stop_worker fuel kernel q t
          else if reply.ret ==ℤ q
          then stop_worker fuel kernel p t
          else stop_both fuel kernel p q t)
        ≡ some t'
      → ((pid : ℤ)
          → (leb_ℤ pid (pos 0) ≡ false → (reply.ret ==ℤ pid) ≡ false)
          → is_in pid (p ∷ q ∷ []) ≡ true
          → Targets kernel pid t)
      → (leb_ℤ q (pos 0) ≡ false → (p ==ℤ q) ≡ false)
      → Aims kernel t
      → Aims kernel t'
  react-Aims fuel p q reply t t' e g n a = elim (Bool-cases (reply.ret ==ℤ p)) [
    | inl k ↦
        (let e' : stop_worker fuel kernel q t ≡ some t' = ground (arith, e, k) in
          (stop_worker-Leaves kernel fuel q (negsuc 0) t t' e'
              (g q (λ l. ground (arith, n l, k)) (ground arith)) (λ l. absurd (cc l))).0
            a)
    | inr k ↦ elim (Bool-cases (reply.ret ==ℤ q)) [
      | inl j ↦
          (let e' : stop_worker fuel kernel p t ≡ some t' = ground (arith, e, k, j) in
            (stop_worker-Leaves kernel fuel p (negsuc 0) t t' e' (g p (λ l. k) (ground arith))
                (λ l. absurd (cc l))).0
              a)
      | inr j ↦
          (let e' : stop_both fuel kernel p q t ≡ some t' = ground (arith, e, k, j) in
            stop_both-Aims kernel fuel p q t t' e' (g p (λ l. k) (ground arith))
              (g q (λ l. j) (ground arith)) n a)
    ]
  ]

  supervise-Aims :
      (fuel : ℕ) (p q : ℤ) (t : List Call) (r : ℕ × List Call)
      → supervise fuel kernel p q t ≡ some r
      → ((pid : ℤ) → is_in pid (p ∷ q ∷ []) ≡ true → Targets kernel pid t)
      → (leb_ℤ q (pos 0) ≡ false → (p ==ℤ q) ≡ false)
      → Aims kernel t
      → Aims kernel r.1
  unfolding supervise wait_for_worker
  supervise-Aims fuel p q t r e g n a = waited (repeat_call fuel kernel wait_any t) refl
    where
      waited :
          (o : Option (Reply × List Call))
          → repeat_call fuel kernel wait_any t ≡ o
          → Aims kernel r.1
      waited none f = absurd (ground (arith, e, f))
      waited (some w) f =
          let rep = repeat_call-Repeated kernel fuel wait_any t w f in
          let aims = wait_any-Aims kernel rep a in
          elim (Bool-cases (ltb_ℤ w.0.ret (pos 0))) [
            | inl l ↦
                (let e' : stop_both fuel kernel p q w.1 ≡ some r.1 =
                    and_then-some _ exit_failure r (ground (arith, e, f, l)) in
                  stop_both-Aims kernel fuel p q w.1 r.1 e'
                    (wait_any-Targets kernel p rep (λ k. ground (arith, l, k)) (g p (ground arith)))
                    (wait_any-Targets kernel q rep (λ k. ground (arith, l, k)) (g q (ground arith)))
                    n aims)
            | inr l ↦
                react-Aims fuel p q w.0 w.1 r.1
                  (and_then-some _
                    (if is_expected_stop w.0.status then exit_success else exit_failure) r
                    (ground (arith, e, f, l)))
                  (λ pid d i. wait_any-Targets kernel pid rep d (g pid i)) n aims
          ]

  -- The process numbers that the two forks of main give.
  abbrev pub keyboard_pid : ℤ
  keyboard_pid = (kernel [] (fork "keyboard")).ret

  abbrev pub touchpad_pid : ℤ
  touchpad_pid = (kernel (fork "keyboard" ∷ []) (fork "touchpad")).ret

  -- If the two forks of main do not give the same process, then every SIGTERM that main sends goes
  -- to a process that it has forked and has not reaped yet. This holds with any fuel, whether the
  -- hardware configuration was loaded or not, and whatever the waits return.
  pub main_program-Aims :
      (fuel : ℕ) (loaded : Bool) (r : ℕ × List Call)
      → (leb_ℤ touchpad_pid (pos 0) ≡ false → (keyboard_pid ==ℤ touchpad_pid) ≡ false)
      → main_program fuel kernel loaded ≡ some r
      → Aims kernel r.1
  unfolding main_program
  main_program-Aims fuel false r n e =
      give_up-Aims kernel fuel (negsuc 0) (negsuc 0) [] r e (λ l. absurd (cc l))
        (λ l. absurd (cc l)) (λ l. absurd (cc l)) tt
  main_program-Aims fuel true r n e =
      let t1 = fork "keyboard" ∷ [] in
      let t2 = fork "touchpad" ∷ t1 in
      elim (Bool-cases (ltb_ℤ keyboard_pid (pos 0))) [
        | inl l ↦
            give_up-Aims kernel fuel (negsuc 0) (negsuc 0) t1 r (ground (arith, e, l))
              (λ k. absurd (cc k)) (λ k. absurd (cc k)) (λ k. absurd (cc k)) tt
        | inr l ↦ elim (Bool-cases (ltb_ℤ touchpad_pid (pos 0))) [
          | inl k ↦
              give_up-Aims kernel fuel keyboard_pid (negsuc 0) t2 r (ground (arith, e, l, k))
                (λ m. (ground arith, refl)) (λ m. absurd (cc m)) (λ m. absurd (cc m)) tt
          | inr k ↦
              supervise-Aims fuel keyboard_pid touchpad_pid t2 r (ground (arith, e, l, k))
                (λ pid i m. (ground (arith, i), refl)) n tt
        ]
      ]

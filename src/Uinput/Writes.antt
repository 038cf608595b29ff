-- ===== src/Uinput/Writes.antt =====
-- SendEvent and what is built on it: results, and the exceptions of incomplete writes.
use Prim.Native.String.{String}
use mathlib.Core.Path.{subst}
use halo_keyboard.Prelude.{
  ℕ, ℤ, pos, ◌≡◌, refl, List, ◌∷◌, arith, Bool-cases, inl, inr, ltb_ℤ, ◌==ℤ◌,
}
use halo_keyboard.Input.{InputEvent}
use halo_keyboard.System.{
  Os, Reply, Syscall, write_event, Result, ok, err, system_error, runtime_error, ◌>>=◌, Gives,
  gives, throws, ok-injective, Safe, result, by_system, by_runtime,
}
use halo_keyboard.Uinput.{send_event, event_of, sizeof_input_event}

-- Every write of an event is complete.
abbrev pub IsReliable : Os → Type 0
IsReliable os =
    (trace : List Syscall) (fd : ℤ) (ev : InputEvent)
    → (os trace (write_event fd ev)).ret ≡ sizeof_input_event

-- How a computation that writes events ends: with a result that has a property, or with the
-- exception of a write that was not complete; never out of range or in undefined behaviour.
pub data Ends {ℓ} (os : Os) {A : Type ℓ} (P : A → Type 0) : Result A → Type ℓ where
  done : {a : A} → P a → Ends os P (ok a)
  failed : (errno : ℕ) (what : String) → ¬ IsReliable os → Ends os P (err (system_error errno what))
  short : (what : String) → ¬ IsReliable os → Ends os P (err (runtime_error what))

pub Ends-bind {ℓ κ} :
    {os : Os} {A : Type ℓ} {B : Type κ} {P : A → Type 0} {Q : B → Type 0} {m : Result A}
    {f : A → Result B}
    → Ends os P m
    → ((a : A) → P a → Ends os Q (f a))
    → Ends os Q (m >>= f)
Ends-bind (done p) k = k _ p
Ends-bind (failed errno what n) k = failed errno what n
Ends-bind (short what n) k = short what n

pub send_event-Ends :
    (os : Os) (fd : ℤ) (trace : List Syscall) (ev_type ev_code : ℕ) (value : ℤ)
    → Ends os
        (λ trace'. trace' ≡ write_event fd (event_of ev_type ev_code value) ∷ trace)
        (send_event os fd trace ev_type ev_code value)
unfolding send_event
send_event-Ends os fd trace ev_type ev_code value = elim (Bool-cases (ltb_ℤ reply.ret (pos 0))) [
  | inl e ↦
      rw (e, send_event)
        (failed _ _ λ r. ground (arith, r trace fd (event_of ev_type ev_code value)))
  | inr e ↦ elim (Bool-cases (reply.ret ==ℤ sizeof_input_event)) [
    | inl g ↦ rw (e, g, send_event) (done refl)
    | inr g ↦
        rw (e, g, send_event)
          (short _ λ r. ground (arith, r trace fd (event_of ev_type ev_code value)))
  ]
]
  where
    reply : Reply
    reply = os trace (write_event fd (event_of ev_type ev_code value))

pub Ends-map {ℓ} :
    {os : Os} {A : Type ℓ} {P Q : A → Type 0} {m : Result A}
    → Ends os P m
    → ((a : A) → P a → Q a)
    → Ends os Q m
Ends-map (done p) k = done (k _ p)
Ends-map (failed errno what n) k = failed errno what n
Ends-map (short what n) k = short what n

pub Ends-ok {ℓ} :
    {os : Os} {A : Type ℓ} {P : A → Type 0} {m : Result A} {a : A} → Ends os P m → m ≡ ok a → P a
Ends-ok {P} (done p) e = subst P (ok-injective e) p
Ends-ok (failed errno what n) e = cc
Ends-ok (short what n) e = cc

-- With complete writes there is a result.
pub Ends-IsReliable {ℓ} :
    {os : Os} {A : Type ℓ} {P : A → Type 0} {m : Result A}
    → IsReliable os
    → Ends os P m
    → (a : A) × (m ≡ ok a) × P a
Ends-IsReliable r (done {a = a} p) = (a, refl, p)
Ends-IsReliable r (failed errno what n) = absurd (n r)
Ends-IsReliable r (short what n) = absurd (n r)

pub Ends-Gives {ℓ} :
    {os : Os} {A : Type ℓ} {P : A → Type 0} {m : Result A} → Ends os P m → Gives P m
Ends-Gives (done p) = gives p
Ends-Gives (failed errno what n) = throws
Ends-Gives (short what n) = throws

pub Ends-Safe {ℓ} : {os : Os} {A : Type ℓ} {P : A → Type 0} {m : Result A} → Ends os P m → Safe P m
Ends-Safe (done p) = result p
Ends-Safe (failed errno what n) = by_system
Ends-Safe (short what n) = by_runtime

pub Ends-both {ℓ} :
    {os : Os} {A : Type ℓ} {P Q : A → Type 0} {m : Result A}
    → Ends os P m
    → Ends os Q m
    → Ends os (λ a. P a × Q a) m
Ends-both (done p) h = done (p, Ends-ok h refl)
Ends-both (failed errno what n) h = failed errno what n
Ends-both (short what n) h = short what n
